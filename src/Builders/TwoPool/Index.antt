-- ===== src/Builders/TwoPool/Index.antt =====
-- The index token_to_pools holds a pool under its two tokens and nowhere else.
use cream_bots.Prelude.{
  String, String_discrete, none, List, [], ◌∷◌, ◌++◌, ◌≡◌, ◌≢◌, refl, sym, ap, ◌∙◌, subst, Memᴰ,
  Option-cases, ◌⊎◌, inl, inr,
}
use mathlib.Core.List.Memᴰ
use mathlib.Core.List.Memᴰ.{head, tail}
use cream_bots.Prelude.Dict.{get, put, get-put_self, get-put_ne}
use cream_bots.Builders.LpFetcher.{Lp}
use cream_bots.Builders.TwoPool.{
  TokenToPools, or_empty, pools_of, ensure, append_pool, index_pool, token_to_pools,
}

append_pool_same :
    (t : String) (p : Lp) (d : TokenToPools)
    → pools_of t (append_pool t p d) ≡ pools_of t d ++ p ∷ []
unfolding pools_of append_pool
append_pool_same t p d = ap or_empty (get-put_self String_discrete t (pools_of t d ++ p ∷ []) d)

append_pool_other :
    (u t : String) (p : Lp) (d : TokenToPools)
    → u ≢ t
    → pools_of t (append_pool u p d) ≡ pools_of t d
unfolding pools_of append_pool
append_pool_other u t p d n =
    ap or_empty (get-put_ne String_discrete u t (pools_of u d ++ p ∷ []) d n)

ensure_new :
    (u t : String) (d : TokenToPools)
    → get String_discrete u d ≡ none
    → or_empty (get String_discrete t (put String_discrete u [] d)) ≡ pools_of t d
unfolding pools_of
ensure_new u t d e = elim (String_discrete u t) [
  | no n ↦ ap or_empty (get-put_ne String_discrete u t [] d n)
  | yes same ↦
      ap (λ x. or_empty (get String_discrete t (put String_discrete x [] d))) same
      ∙ ap or_empty (get-put_self String_discrete t [] d)
      ∙ ap or_empty (sym e)
      ∙ ap (λ x. or_empty (get String_discrete x d)) same
]

ensure_lem : (u t : String) (d : TokenToPools) → pools_of t (ensure u d) ≡ pools_of t d
unfolding ensure pools_of
ensure_lem u t d = elim (Option-cases (get String_discrete u d)) [
  | inr (l, e) ↦ rw (ensure, e) refl
  | inl e ↦ rw (ensure, e) (ensure_new u t d e)
]

-- `t` is one of the pool's tokens.
abbrev pub IsTokenOf : String → Lp → Type 0
IsTokenOf t p = (p.token0 ≡ t) ⊎ (p.token1 ≡ t)

append_pool-mem :
    (u t : String) (p : Lp) (d : TokenToPools) {q : Lp}
    → Memᴰ q (pools_of t d)
    → Memᴰ q (pools_of t (append_pool u p d))
append_pool-mem u t p d {q} m = elim (String_discrete u t) [
  | yes same ↦ rw same (rw (append_pool_same t p d) (Memᴰ.append_left _ m))
  | no n ↦ rw (append_pool_other u t p d n) m
]

mem-append_pool :
    (u t : String) (p : Lp) (d : TokenToPools) → u ≡ t → Memᴰ p (pools_of t (append_pool u p d))
mem-append_pool u t p d same =
    rw same (rw (append_pool_same t p d) (Memᴰ.append_right (pools_of t d) (head refl)))

mem_of_append_pool :
    (u t : String) (p : Lp) (d : TokenToPools) {q : Lp}
    → Memᴰ q (pools_of t (append_pool u p d))
    → ((q ≡ p) × (u ≡ t)) ⊎ Memᴰ q (pools_of t d)
mem_of_append_pool u t p d {q} m = elim (String_discrete u t) [
  | yes same ↦
      let m' : Memᴰ q (pools_of t d ++ p ∷ []) =
        subst (λ l. Memᴰ q l)
          (ap (λ x. pools_of t (append_pool x p d)) same ∙ append_pool_same t p d) m in
      elim (Memᴰ.append_cases (pools_of t d) m') [
        | inl old ↦ inr old
        | inr new ↦ inl (Memᴰ.eq_of_singleton new, same)
      ]
  | no n ↦ inr (subst (λ l. Memᴰ q l) (append_pool_other u t p d n) m)
]

index_pool-mem :
    (t : String) (p : Lp) (d : TokenToPools) {q : Lp}
    → Memᴰ q (pools_of t d)
    → Memᴰ q (pools_of t (index_pool p d))
unfolding index_pool
index_pool-mem t p d {q} m = append_pool-mem p.token1 t p _ (
    append_pool-mem p.token0 t p _
      (rw (ensure_lem p.token1 t (ensure p.token0 d), ensure_lem p.token0 t d) m))

mem-index_pool :
    (t : String) (p : Lp) (d : TokenToPools) → IsTokenOf t p → Memᴰ p (pools_of t (index_pool p d))
unfolding index_pool
mem-index_pool t p d (inl e) = append_pool-mem p.token1 t p _ (mem-append_pool p.token0 t p _ e)
mem-index_pool t p d (inr e) = mem-append_pool p.token1 t p _ e

mem_of_index_pool :
    (t : String) (p : Lp) (d : TokenToPools) {q : Lp}
    → Memᴰ q (pools_of t (index_pool p d))
    → ((q ≡ p) × IsTokenOf t p) ⊎ Memᴰ q (pools_of t d)
unfolding index_pool
mem_of_index_pool t p d {q} m = elim (mem_of_append_pool p.token1 t p _ m) [
  | inl (e, here) ↦ inl (e, inr here)
  | inr m' ↦ elim (mem_of_append_pool p.token0 t p _ m') [
    | inl (e, here) ↦ inl (e, inl here)
    | inr m'' ↦ inr (
        subst (λ l. Memᴰ q l) (ensure_lem p.token1 t (ensure p.token0 d) ∙ ensure_lem p.token0 t d)
          m'')
  ]
]

token_to_pools-mem :
    (t : String) (ps : List Lp) (d : TokenToPools) {q : Lp}
    → Memᴰ q (pools_of t d)
    → Memᴰ q (pools_of t (token_to_pools ps d))
unfolding token_to_pools
token_to_pools-mem t [] d m = m
token_to_pools-mem t (p ∷ ps) d m =
    token_to_pools-mem t ps (index_pool p d) (index_pool-mem t p d m)

pub mem-token_to_pools :
    (t : String) (ps : List Lp) (d : TokenToPools) {q : Lp}
    → Memᴰ q ps
    → IsTokenOf t q
    → Memᴰ q (pools_of t (token_to_pools ps d))
unfolding token_to_pools
mem-token_to_pools t [] d m h = absurd (Memᴰ.not-nil m)
mem-token_to_pools t (p ∷ ps) d {q} (head e) h = token_to_pools-mem t ps (index_pool p d) (
    subst (λ x. Memᴰ x (pools_of t (index_pool p d))) (sym e)
      (mem-index_pool t p d (subst (λ x. IsTokenOf t x) e h)))
mem-token_to_pools t (p ∷ ps) d (tail m) h = mem-token_to_pools t ps (index_pool p d) m h

pub mem_of_token_to_pools :
    (t : String) (ps : List Lp) (d : TokenToPools) {q : Lp}
    → Memᴰ q (pools_of t (token_to_pools ps d))
    → (Memᴰ q ps × IsTokenOf t q) ⊎ Memᴰ q (pools_of t d)
unfolding token_to_pools
mem_of_token_to_pools t [] d m = inr m
mem_of_token_to_pools t (p ∷ ps) d {q} m = elim (mem_of_token_to_pools t ps (index_pool p d) m) [
  | inl (n, h) ↦ inl (tail n, h)
  | inr n ↦ elim (mem_of_index_pool t p d n) [
    | inl (e, h) ↦ inl (head e, subst (λ x. IsTokenOf t x) (sym e) h)
    | inr old ↦ inr old
  ]
]
