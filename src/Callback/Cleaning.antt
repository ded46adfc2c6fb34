-- ===== src/Callback/Cleaning.antt =====
-- What clean_transaction returns, and what it leaves behind.
use cream_bots.Prelude.{
  String, String_discrete, true, false, Option, none, some, List, [], ◌∷◌, ◌++◌, ◌≡◌, refl, sym, ap,
  ◌∙◌, subst, Exception, Result, ok, raise, Result-cases, Option-cases, Bool-cases, ok-injective,
  contains, remove_all, length, if◌then◌else◌, ◌==◌, ◌||◌, ◌⊎◌, inl, inr, add, raise-ne-ok,
  ne_of_compare,
}
use cream_bots.Prelude.Int.{ℤ, pos, negsuc}
use cream_bots.Prelude.Dict.{get, get-put_ne, get-put_self, get-select}
use cream_bots.Prelude.Exec.{pure, lift, ◌>>=◌}
use cream_bots.Json.{Value, Value_discrete, truthy, Object}
use cream_bots.Callback.{
  State, Node, field, params_to_keep, legacy_removed, dynamic_removed, removed_params, keep_fields,
  add_failed, store_address, replace_address, checksum_field, simulate, clean_known, reject,
  clean_type, try_clean,
}

-- What is kept of a field.
abbrev pub kept_field : List String → Object → String → Option Value
kept_field params transaction k =
    if contains String_discrete params k then get String_discrete k transaction else none

module _ (node : Node) where
  -- An address that is there and is not empty is replaced by its checksum address.
  abbrev pub IsChecksummed : Option Value → Option Value → Type 0
  IsChecksummed none after = after ≡ none
  IsChecksummed (some v) after =
      ((truthy v ≡ true) × (a : Value) × (node.checksum v ≡ ok a) × (after ≡ some a))
      ⊎ ((truthy v ≡ false) × (after ≡ some v))

  -- The fields that remain: the two addresses as checksum addresses, the others with the values
  -- that they had.
  pub record KeepsFields (params : List String) (transaction cleaned : Object) : Type 0 where
    pub others :
        (k : String)
        → ¬ (k ≡ "from")
        → ¬ (k ≡ "to")
        → get String_discrete k cleaned ≡ kept_field params transaction k
    pub from_address :
        IsChecksummed (kept_field params transaction "from") (get String_discrete "from" cleaned)
    pub to_address :
        IsChecksummed (kept_field params transaction "to") (get String_discrete "to" cleaned)

  checksum_field-get :
      (key k : String) (transaction after : Object)
      → checksum_field node key transaction ≡ ok after
      → ¬ (k ≡ key)
      → get String_discrete k after ≡ get String_discrete k transaction
  unfolding checksum_field store_address replace_address
  checksum_field-get key k transaction after e n = go (get String_discrete key transaction) e
    where
      stored :
          (r : Result Value)
          → store_address node key transaction r ≡ ok after
          → get String_discrete k after ≡ get String_discrete k transaction
      stored (ok a) h =
          ap (get String_discrete k) (sym (ok-injective h))
          ∙ get-put_ne String_discrete key k a transaction (λ same. n (sym same))
      stored (raise x) h = cc

      go :
          (o : Option Value)
          → replace_address node key o transaction ≡ ok after
          → get String_discrete k after ≡ get String_discrete k transaction
      go none h = ap (get String_discrete k) (sym (ok-injective h))
      go (some v) h = elim (Bool-cases (truthy v)) [
        | inl t ↦ stored (node.checksum v) (rw t at h)
        | inr f ↦ ap (get String_discrete k) (sym (ok-injective (rw f at h)))
      ]

  checksum_field-IsChecksummed :
      (key : String) (transaction after : Object)
      → checksum_field node key transaction ≡ ok after
      → IsChecksummed (get String_discrete key transaction) (get String_discrete key after)
  unfolding checksum_field store_address replace_address
  checksum_field-IsChecksummed key transaction after e =
      go (get String_discrete key transaction) refl e
    where
      go :
          (o : Option Value)
          → get String_discrete key transaction ≡ o
          → replace_address node key o transaction ≡ ok after
          → IsChecksummed o (get String_discrete key after)
      go none was h = ap (get String_discrete key) (sym (ok-injective h)) ∙ was
      go (some v) was h = elim (Bool-cases (truthy v)) [
        | inl t ↦ elim (Result-cases (node.checksum v)) [
          | inl (a, c) ↦ inl (
            t,
            a,
            c,
            ap (get String_discrete key) (sym (ok-injective (rw (t, c) at h)))
                ∙ get-put_self String_discrete key a transaction,
          )
          | inr (x, c) ↦ absurd (raise-ne-ok (rw (t, c) at h))
        ]
        | inr f ↦ inr (f, ap (get String_discrete key) (sym (ok-injective (rw f at h))) ∙ was)
      ]

  keep_fields-get :
      (params : List String) (transaction : Object) (k : String)
      → get String_discrete k (keep_fields params transaction)
        ≡ (if contains String_discrete params k then get String_discrete k transaction else none)
  unfolding keep_fields
  keep_fields-get params transaction k =
      get-select String_discrete (λ j. contains String_discrete params j) k transaction

  keeps :
      (transaction : Object) (params : List String) (with_from tested : Object)
      → checksum_field node "from" (keep_fields params transaction) ≡ ok with_from
      → checksum_field node "to" with_from ≡ ok tested
      → KeepsFields params transaction tested
  keeps transaction params with_from tested good fine = record {
    others = λ k not_from not_to.
        checksum_field-get "to" k with_from tested fine not_to
        ∙ checksum_field-get "from" k (keep_fields params transaction) with_from good not_from
        ∙ keep_fields-get params transaction k;
    from_address =
        subst (λ o. IsChecksummed o (get String_discrete "from" tested))
          (keep_fields-get params transaction "from")
          (subst
            (λ o. IsChecksummed (get String_discrete "from" (keep_fields params transaction)) o)
            (sym (
              checksum_field-get "to" "from" with_from tested fine
                (ne_of_compare "from" "to" refl)))
            (checksum_field-IsChecksummed "from" (keep_fields params transaction) with_from good));
    to_address =
        subst (λ o. IsChecksummed o (get String_discrete "to" tested))
          (checksum_field-get "from" "to" (keep_fields params transaction) with_from good
              (ne_of_compare "to" "from" refl)
            ∙ keep_fields-get params transaction "to")
          (checksum_field-IsChecksummed "to" with_from tested fine);
  }

  -- The node's answer, and what is returned after it.
  abbrev pub answered : Result (Unit {0}) → Object → Result (Option Object)
  answered (ok _) tested = ok (some tested)
  answered (raise e) tested = raise e

  -- The two ways of the `try` block for a known type: the node was asked about a cleaned
  -- transaction, or an address could not be converted.
  clean_known-cases :
      (transaction : Object) (removed params : List String) (s : State)
      → remove_all String_discrete removed params_to_keep ≡ ok params
      → ((tested : Object) × KeepsFields params transaction tested
          × (clean_known node transaction removed s ≡ (
            record s { calls = s.calls ++ tested ∷ [] },
            answered (node.eth_call (length s.calls) tested) tested,
          )))
        ⊎ ((e : Exception) × (clean_known node transaction removed s ≡ (s, raise e)))
  unfolding clean_known lift pure simulate ◌>>=◌
  clean_known-cases transaction removed params s kept =
      elim (Result-cases (checksum_field node "from" (keep_fields params transaction))) [
        | inr (e, bad) ↦ inr (e, rw (kept, bad) refl)
        | inl (with_from, good) ↦ elim (Result-cases (checksum_field node "to" with_from)) [
          | inr (e, bad) ↦ inr (e, rw (kept, good, bad) refl)
          | inl (tested, fine) ↦ inl (
            tested,
            keeps transaction params with_from tested good fine,
            rw (kept, good, fine)
                (elim (Result-cases (node.eth_call (length s.calls) tested)) [
                  | inl (_, e) ↦ rw e refl
                  | inr (_, e) ↦ rw e refl
                ]),
          )
        ]
      ]

  -- Which names are removed for the type of the transaction, and what has become of it.
  pub record IsCleaned (transaction cleaned : Object) : Type 0 where
    pub removed : List String
    pub params : List String
    pub type_value : Value
    pub type_number : ℤ
    pub has_type : get String_discrete "type" transaction ≡ some type_value
    pub typed : node.int_16 type_value ≡ ok type_number
    pub rule : removed_params type_number ≡ some removed
    pub kept : remove_all String_discrete removed params_to_keep ≡ ok params
    pub fields : KeepsFields params transaction cleaned

  -- The node's log has not changed, or has one more entry, the cleaned transaction.
  abbrev pub IsAsked : Object → List Object → List Object → Type 0
  IsAsked transaction before after =
      (after ≡ before)
      ⊎ ((cleaned : Object) × IsCleaned transaction cleaned × (after ≡ before ++ cleaned ∷ []))

  pub removed_params-cases :
      (n : ℤ)
      → (removed_params n ≡ none)
        ⊎ ((removed : List String) × (params : List String) × (removed_params n ≡ some removed)
            × (remove_all String_discrete removed params_to_keep ≡ ok params))
  unfolding remove_all String_discrete
  removed_params-cases (negsuc n) = inl refl
  removed_params-cases (pos n) = elim (Bool-cases (n == 0 || n == 1)) [
    | inl e ↦ inr (legacy_removed, _, rw e refl, refl)
    | inr f ↦ elim (Bool-cases (n == 2 || n == 3)) [
      | inl e ↦ inr (dynamic_removed, _, rw (f, e) refl, refl)
      | inr g ↦ inl (rw (f, g) refl)
    ]
  ]

  pub reject-cases :
      (transaction : Object) (s : State)
      → ((hash : Value) × (get String_discrete "hash" transaction ≡ some hash)
          × (reject node transaction s ≡ (
            record s { failed_transactions = add Value_discrete hash s.failed_transactions },
            ok none,
          )))
        ⊎ ((get String_discrete "hash" transaction ≡ none)
            × (reject node transaction s ≡ (s, raise Exception.key_error)))
  unfolding reject field add_failed lift pure ◌>>=◌
  reject-cases transaction s = elim (Option-cases (get String_discrete "hash" transaction)) [
    | inl e ↦ inr (e, rw e refl)
    | inr (h, e) ↦ inl (h, e, rw e refl)
  ]

  -- How the `try` block ends.
  pub data IsTried (transaction : Object) (s : State)
      : State × Result (Option Object) → Type 0 where
    accepted :
        (cleaned : Object)
        → IsCleaned transaction cleaned
        → node.eth_call (length s.calls) cleaned ≡ ok tt
        → IsTried transaction s (record s { calls = s.calls ++ cleaned ∷ [] }, ok (some cleaned))
    refused :
        (calls : List Object) (e : Exception)
        → IsAsked transaction s.calls calls
        → IsTried transaction s (record s { calls = calls }, raise e)
    unknown : IsTried transaction s (reject node transaction s)

  clean_known-IsTried :
      (transaction : Object) (removed params : List String) (s : State) (v : Value) (n : ℤ)
      → get String_discrete "type" transaction ≡ some v
      → node.int_16 v ≡ ok n
      → removed_params n ≡ some removed
      → remove_all String_discrete removed params_to_keep ≡ ok params
      → IsTried transaction s (clean_known node transaction removed s)
  clean_known-IsTried transaction removed params s v n has_type typed rule kept =
      elim (clean_known-cases transaction removed params s kept) [
        | inr (e, ends) ↦ subst (IsTried transaction s) (sym ends) (refused s.calls e (inl refl))
        | inl (cleaned, fields, ends) ↦
            let is_cleaned : IsCleaned transaction cleaned = record {
              removed = removed;
              params = params;
              type_value = v;
              type_number = n;
              has_type = has_type;
              typed = typed;
              rule = rule;
              kept = kept;
              fields = fields;
            } in
            subst (IsTried transaction s) (sym ends)
              (answer cleaned is_cleaned (node.eth_call (length s.calls) cleaned) refl)
      ]
    where
      answer :
          (cleaned : Object)
          → IsCleaned transaction cleaned
          → (r : Result (Unit {0})) → node.eth_call (length s.calls) cleaned ≡ r
          → IsTried transaction s (record s { calls = s.calls ++ cleaned ∷ [] }, answered r cleaned)
      answer cleaned c (ok _) e = accepted cleaned c e
      answer cleaned c (raise x) e = refused (s.calls ++ cleaned ∷ []) x (inr (cleaned, c, refl))

  pub try_clean-IsTried :
      (transaction : Object) (s : State) → IsTried transaction s (try_clean node transaction s)
  unfolding try_clean clean_type field lift ◌>>=◌
  try_clean-IsTried transaction s = elim (Option-cases (get String_discrete "type" transaction)) [
    | inl e ↦ rw e (refused s.calls Exception.key_error (inl refl))
    | inr (v, e) ↦ elim (Result-cases (node.int_16 v)) [
      | inr (x, bad) ↦ rw (e, bad) (refused s.calls x (inl refl))
      | inl (n, typed) ↦ elim (removed_params-cases n) [
        | inl none_known ↦ rw (e, typed, none_known) unknown
        | inr (removed, params, rule, kept) ↦
            rw (e, typed, rule)
              (clean_known-IsTried transaction removed params s v n e typed rule kept)
      ]
    ]
  ]
