-- ===== src/Blacklist/Added.antt =====
-- What update_blacklist adds.
use cream_bots.Prelude.{
  String, String_discrete, Bool, true, false, List, ◌≡◌, ◌≢◌, refl, sym, ◌∙◌, subst, ok, raise,
  holds, holds_of, of_holds, ◌||◌, ◌&&◌, key_error, contains, add, contains_of_mem, mem-add,
  mem-add_self, mem_of_add, Bool-cases, inl, inr, Memᴰ, if◌then◌else◌, ◌⊎◌,
}
use cream_bots.Blacklist.{
  BlacklistType, arb_list, deployer_list, pool_list, token_list, Service, list_of, same_type,
  type_named, update_blacklist,
}
use cream_bots.Blacklist.Reloaded.{contains_iff, list-set_list, written}

same_type_eq : (t u : BlacklistType) → same_type t u ≡ true → t ≡ u
same_type_eq arb_list arb_list e = refl
same_type_eq deployer_list deployer_list e = refl
same_type_eq pool_list pool_list e = refl
same_type_eq token_list token_list e = refl
same_type_eq _ _ e = cc

-- None of the four names that there are lists for.
abbrev pub IsUnknown : String → Type 0
IsUnknown name = (name ≢ "arbs") × (name ≢ "deployers") × (name ≢ "pools") × (name ≢ "tokens")

-- The list that a name stands for.
abbrev pub IsNameOf : String → BlacklistType → Type 0
IsNameOf name arb_list = name ≡ "arbs"
IsNameOf name deployer_list = name ≡ "deployers"
IsNameOf name pool_list = name ≡ "pools"
IsNameOf name token_list = name ≡ "tokens"

differs : (a b : String) → holds (String_discrete a b) ≡ false → a ≢ b
differs a b f e = cc (f, holds_of (String_discrete a b) e)

type_named-cases :
    (name : String)
    → ((t : BlacklistType) × IsNameOf name t × (type_named name ≡ ok t))
      ⊎ (IsUnknown name × (type_named name ≡ raise key_error))
unfolding type_named
type_named-cases name = elim (Bool-cases (holds (String_discrete name "arbs"))) [
  | inl e ↦ inl (arb_list, of_holds (String_discrete name "arbs") e, rw e refl)
  | inr n ↦ elim (Bool-cases (holds (String_discrete name "deployers"))) [
    | inl e ↦ inl (deployer_list, of_holds (String_discrete name "deployers") e, rw (n, e) refl)
    | inr m ↦ elim (Bool-cases (holds (String_discrete name "pools"))) [
      | inl e ↦ inl (pool_list, of_holds (String_discrete name "pools") e, rw (n, m, e) refl)
      | inr k ↦ elim (Bool-cases (holds (String_discrete name "tokens"))) [
        | inl e ↦ inl (token_list, of_holds (String_discrete name "tokens") e, rw (n, m, k, e) refl)
        | inr l ↦ inr (
          (
            differs name "arbs" n,
            differs name "deployers" m,
            differs name "pools" k,
            differs name "tokens" l,
          ),
          rw (n, m, k, l) refl,
        )
      ]
    ]
  ]
]

-- Whether `address` is the one that was added to the list.
abbrev pub is_added : BlacklistType → String → BlacklistType → String → Bool
is_added t a u b = same_type t u && holds (String_discrete b a)

contains-add :
    (a b : String) (items : List String)
    → contains String_discrete (add String_discrete a items) b
      ≡ (holds (String_discrete b a) || contains String_discrete items b)
contains-add a b items = elim (Bool-cases (holds (String_discrete b a))) [
  | inl e ↦ rw e (
      contains_of_mem String_discrete _ (
        subst (λ x. Memᴰ x (add String_discrete a items)) (sym (of_holds (String_discrete b a) e))
          (mem-add_self String_discrete a items)))
  | inr n ↦ rw n (
      contains_iff (add String_discrete a items) items b
        (λ m. elim (mem_of_add String_discrete a items m) [
          | inl e ↦ absurd (true-ne-false (sym (holds_of (String_discrete b a) e) ∙ n))
          | inr old ↦ old
        ])
        (mem-add String_discrete a items))
]
  where
    true-ne-false : true ≡ false → ⊥
    true-ne-false h = cc

-- An update of one of the four lists by its name returns and adds the address to that list, in the
-- answers of is_blacklisted and in no other way; an update of any other name raises a KeyError.
pub update_blacklist-cases :
    (name a : String) (s : Service)
    → ((t : BlacklistType) × (after : Service) × IsNameOf name t
        × (update_blacklist name a s ≡ ok after)
        × ((u : BlacklistType) (b : String)
            → contains String_discrete (list_of u after.blacklists) b
              ≡ (is_added t a u b || contains String_discrete (list_of u s.blacklists) b)))
      ⊎ (IsUnknown name × (update_blacklist name a s ≡ raise key_error))
unfolding update_blacklist
update_blacklist-cases name a s = elim (type_named-cases name) [
  | inr (unknown, bad) ↦ inr (unknown, rw bad refl)
  | inl (t, named, good) ↦
      let items = add String_discrete a (list_of t s.blacklists) in
      inl (
        t,
        written t items s,
        named,
        rw good refl,
        λ u b. rw (list-set_list t u items s) (answer t u b (same_type t u) refl),
      )
]
  where
    answer :
        (t u : BlacklistType) (b : String) (same : Bool)
        → same_type t u ≡ same
        → contains String_discrete
            (if same
              then add String_discrete a (list_of t s.blacklists)
              else list_of u s.blacklists)
            b
          ≡ ((same && holds (String_discrete b a))
              || contains String_discrete (list_of u s.blacklists) b)
    answer t u b false e = refl
    answer t u b true e = rw (same_type_eq t u e) (contains-add a b (list_of u s.blacklists))
