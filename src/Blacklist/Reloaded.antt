-- ===== src/Blacklist/Reloaded.antt =====
-- The files keep what the service knows.
use cream_bots.Prelude.{
  String, String_discrete, Bool, true, false, Option, some, List, [], ◌∷◌, foldl, ◌≡◌, refl, sym,
  ap, ◌∙◌, subst, ok, Result-cases, ok-injective, raise-ne-ok, contains, add, contains_of_mem,
  mem_of_contains, mem-add, mem-add_self, mem_of_add, Bool-cases, inl, inr, Memᴰ, if◌then◌else◌,
  ◌⊎◌, not-mem_of_contains,
}
use mathlib.Core.List.Memᴰ
use mathlib.Core.List.Memᴰ.{head, tail}
use cream_bots.Blacklist.{
  BlacklistType, arb_list, deployer_list, pool_list, token_list, Service, write_file, list_of,
  set_list, same_type, type_named, as_set, read_set, load_blacklist, load_blacklists,
  update_blacklist, is_blacklisted, update_all,
}

pub contains_iff :
    (xs ys : List String) (a : String)
    → (Memᴰ a xs → Memᴰ a ys)
    → (Memᴰ a ys → Memᴰ a xs)
    → contains String_discrete xs a ≡ contains String_discrete ys a
contains_iff xs ys a to back = elim (Bool-cases (contains String_discrete xs a)) [
  | inl t ↦
      t ∙ sym (contains_of_mem String_discrete ys (to (mem_of_contains String_discrete xs a t)))
  | inr f ↦ elim (Bool-cases (contains String_discrete ys a)) [
    | inr g ↦ f ∙ sym g
    | inl t ↦
        absurd
          (not-mem_of_contains String_discrete xs f (back (mem_of_contains String_discrete ys a t)))
  ]
]

mem-foldl_add :
    (items s : List String) {a : String}
    → Memᴰ a s ⊎ Memᴰ a items
    → Memᴰ a (foldl (λ s b. add String_discrete b s) s items)
mem-foldl_add [] s (inl m) = m
mem-foldl_add [] s (inr m) = absurd (Memᴰ.not-nil m)
mem-foldl_add (b ∷ items) s (inl m) =
    mem-foldl_add items (add String_discrete b s) (inl (mem-add String_discrete b s m))
mem-foldl_add (b ∷ items) s {a} (inr (head e)) =
    mem-foldl_add items (add String_discrete b s) (
      inl
        (subst (λ x. Memᴰ x (add String_discrete b s)) (sym e) (mem-add_self String_discrete b s)))
mem-foldl_add (b ∷ items) s (inr (tail m)) = mem-foldl_add items (add String_discrete b s) (inr m)

mem_of_foldl_add :
    (items s : List String) {a : String}
    → Memᴰ a (foldl (λ s b. add String_discrete b s) s items)
    → Memᴰ a s ⊎ Memᴰ a items
mem_of_foldl_add [] s m = inl m
mem_of_foldl_add (b ∷ items) s m = elim (mem_of_foldl_add items (add String_discrete b s) m) [
  | inr n ↦ inr (tail n)
  | inl n ↦ elim (mem_of_add String_discrete b s n) [ inl e ↦ inr (head e) | inr old ↦ inl old ]
]

-- A set has the items of the list that it is made from.
contains-as_set :
    (items : List String) (a : String)
    → contains String_discrete (as_set items) a ≡ contains String_discrete items a
unfolding as_set
contains-as_set items a =
    contains_iff _ items a
      (λ m. elim (mem_of_foldl_add items [] m) [ inl n ↦ absurd (Memᴰ.not-nil n) | inr n ↦ n ])
      (λ m. mem-foldl_add items [] (inr m))

-- What a reload would read is what the service has.
pub record IsSynced (s : Service) : Type 0 where
  pub same :
      (t : BlacklistType) (a : String)
      → contains String_discrete (load_blacklist t s) a
        ≡ contains String_discrete (list_of t s.blacklists) a

list-load_blacklists :
    (t : BlacklistType) (s : Service)
    → list_of t (load_blacklists s).blacklists ≡ load_blacklist t s
unfolding load_blacklists
list-load_blacklists arb_list s = refl
list-load_blacklists deployer_list s = refl
list-load_blacklists pool_list s = refl
list-load_blacklists token_list s = refl

load_blacklists-IsSynced : (s : Service) → IsSynced (load_blacklists s)
unfolding load_blacklists load_blacklist
load_blacklists-IsSynced s = record {
  same = λ t a. ap (λ l. contains String_discrete l a) (sym (list-load_blacklists t s));
}

pub list-set_list :
    (t u : BlacklistType) (items : List String) (s : Service)
    → list_of u (set_list t items s.blacklists)
      ≡ (if same_type t u then items else list_of u s.blacklists)
list-set_list arb_list arb_list items s = refl
list-set_list arb_list deployer_list items s = refl
list-set_list arb_list pool_list items s = refl
list-set_list arb_list token_list items s = refl
list-set_list deployer_list arb_list items s = refl
list-set_list deployer_list deployer_list items s = refl
list-set_list deployer_list pool_list items s = refl
list-set_list deployer_list token_list items s = refl
list-set_list pool_list arb_list items s = refl
list-set_list pool_list deployer_list items s = refl
list-set_list pool_list pool_list items s = refl
list-set_list pool_list token_list items s = refl
list-set_list token_list arb_list items s = refl
list-set_list token_list deployer_list items s = refl
list-set_list token_list pool_list items s = refl
list-set_list token_list token_list items s = refl

-- `s` after a write of `items` under the type `t`.
abbrev pub written : BlacklistType → List String → Service → Service
written t items s = record s {
  blacklists = set_list t items s.blacklists;
  shared = true;
  files = write_file t items s.files;
}

load-written :
    (t u : BlacklistType) (items : List String) (s : Service)
    → load_blacklist u (written t items s)
      ≡ (if same_type t u then as_set items else load_blacklist u s)
unfolding load_blacklist
load-written t u items s = split (same_type t u) (s.files u)
  where
    split :
        (b : Bool) (o : Option (List String))
        → read_set (if b then some items else o) ≡ (if b then as_set items else read_set o)
    split true o = refl
    split false o = refl

written-IsSynced :
    (t : BlacklistType) (items : List String) (s : Service)
    → IsSynced s
    → IsSynced (written t items s)
written-IsSynced t items s h = record {
  same = λ u a.
      rw (load-written t u items s, list-set_list t u items s)
        (elim (Bool-cases (same_type t u)) [
          | inl e ↦ rw e (contains-as_set items a)
          | inr e ↦ rw e (h.same u a)
        ]);
}

update-IsSynced :
    (name a : String) (s after : Service)
    → update_blacklist name a s ≡ ok after
    → IsSynced s
    → IsSynced after
unfolding update_blacklist
update-IsSynced name a s after e h = elim (Result-cases (type_named name)) [
  | inr (x, bad) ↦ absurd (raise-ne-ok (rw bad at e))
  | inl (t, good) ↦
      subst IsSynced (ok-injective (rw good at e))
        (written-IsSynced t (add String_discrete a (list_of t s.blacklists)) s h)
]

update_all-IsSynced :
    (updates : List (String × String)) (s : Service) → IsSynced s → IsSynced (update_all updates s)
unfolding update_all
update_all-IsSynced [] s h = h
update_all-IsSynced ((t, a) ∷ rest) s h = elim (Result-cases (update_blacklist t a s)) [
  | inl (after, e) ↦ rw e (update_all-IsSynced rest after (update-IsSynced t a s after e h))
  | inr (x, e) ↦ rw e (update_all-IsSynced rest s h)
]

-- Once the service has loaded its lists, any updates may follow, also of unknown types: a reload
-- from the files changes no answer of is_blacklisted.
pub is_blacklisted-reload :
    (s : Service) (updates : List (String × String)) (blacklist_type address : String)
    → is_blacklisted blacklist_type address
        (load_blacklists (update_all updates (load_blacklists s)))
      ≡ is_blacklisted blacklist_type address (update_all updates (load_blacklists s))
unfolding is_blacklisted
is_blacklisted-reload s updates name a = elim (Result-cases (type_named name)) [
  | inr (x, bad) ↦ rw bad refl
  | inl (t, good) ↦
      let now = update_all updates (load_blacklists s) in
      rw good (
        ap ok (
          ap (λ l. contains String_discrete l a) (list-load_blacklists t now)
          ∙ (update_all-IsSynced updates (load_blacklists s) (load_blacklists-IsSynced s)).same t
              a))
]
