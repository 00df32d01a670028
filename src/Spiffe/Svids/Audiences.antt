-- ===== src/Spiffe/Svids/Audiences.antt =====
-- The audiences of a JWT-SVID's payload, agentcreds-core/src/spiffe.rs.
use agentcreds.Prelude.{◌≡◌, inl, inr, ap, Option, none, some, List, [], ◌∷◌, ◌↔◌, Among, arith}
use agentcreds.Outcome.{ok}
use agentcreds.Text.{Text, contains_iff}
use agentcreds.Spiffe.{
  Audience, one, many, neither, strings, SvidPayload, extract_audiences, check_audience,
}

-- A payload's `aud` has the audience: it is that string, or an array with it among its elements.
abbrev pub HasAudience : Audience → Text → Type 0
HasAudience (one s) t = t ≡ s
HasAudience (many vs) t = Among (some t) vs
HasAudience neither t = ⊥

Among-strings : (vs : List (Option Text)) (t : Text) → Among t (strings vs) ↔ Among (some t) vs
Among-strings [] t = (λ p. p, λ p. p)
Among-strings (none ∷ vs) t = (
  λ p. inr ((Among-strings vs t).0 p),
  λ p. elim p [ inl e ↦ absurd (ground (arith, e)) | inr q ↦ (Among-strings vs t).1 q ],
)
Among-strings (some s ∷ vs) t = (
  λ p. elim p [
    | inl e ↦ inl (ap (λ (x : Text). some x) e)
    | inr q ↦ inr ((Among-strings vs t).0 q)
  ],
  λ p. elim p [ inl e ↦ inl (ground (arith, e)) | inr q ↦ inr ((Among-strings vs t).1 q) ],
)

pub extract_audiences-HasAudience :
    (payload : SvidPayload) (t : Text)
    → Among t (extract_audiences payload) ↔ HasAudience payload.aud t
unfolding extract_audiences
extract_audiences-HasAudience payload t = of_audience payload.aud
  where
    of_audience :
        (aud : Audience)
        → Among t (elim aud [ one s ↦ s ∷ [] | many vs ↦ strings vs | neither ↦ [] ])
          ↔ HasAudience aud t
    of_audience (one s) = (λ p. elim p [ inl e ↦ e | inr q ↦ absurd q ], λ e. inl e)
    of_audience (many vs) = Among-strings vs t
    of_audience neither = (λ p. p, λ p. p)

pub check_audience-Among :
    (expected : Option Text) (ts : List Text) (t : Text)
    → check_audience expected ts ≡ ok tt
    → expected ≡ some t
    → Among t ts
unfolding check_audience
check_audience-Among none ts t h e = cc
check_audience-Among (some x) ts t h e = (contains_iff ts t).0 (ground (arith, e, h))
