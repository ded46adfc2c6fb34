-- ===== src/Callback/Skipped.antt =====
-- A transaction that has failed once is not simulated again.
use cream_bots.Prelude.{
  String, String_discrete, true, Option, none, some, List, [], ◌∷◌, ◌++◌, ◌≡◌, refl, sym, ap, ◌∙◌,
  subst, Result, ok, All, Memᴰ, All-append, contains, contains_of_mem, mem-add, Bool-cases, inl,
  inr, holds, remove_all, ne_of_compare, ◌==◌, ◌||◌, ok-injective,
}
use mathlib.Core.List.{append-nil, append_assoc}
use cream_bots.Prelude.Dict.{get}
use cream_bots.Prelude.Exec.{
  Keeps, Keeps-pure, Keeps-bind, Keeps-bind-lift, Keeps-if, gets, pure, ◌>>=◌,
}
use cream_bots.Prelude.Int.{ℤ, pos, negsuc}
use cream_bots.Json.{ChannelMessage, Value, Value_discrete, Object}
use cream_bots.Callback.{
  State, Node, field, found, removed_params, legacy_removed, dynamic_removed, params_to_keep,
  clean_transaction,
}
use cream_bots.Callback.Cleaning.{IsCleaned, IsAsked}
use cream_bots.Callback.Cleaned.{Ending, cleaned, failed, without_hash, clean_transaction-Ending}
use cream_bots.Callback.Transactions.{
  process_cleaned, process_pending, process_unless_failed, receive_transaction,
  process_pending_transactions, data_of,
}
use cream_bots.Callback.Printing.{process_cleaned-Keeps}

module _ (node : Node) where
  -- h has failed, and what was simulated since then had another hash.
  pub record Skips (h : Value) (before : List Object) (s : State) : Type 0 where
    pub still_failed : Memᴰ h s.failed_transactions
    pub added : List Object
    pub log : s.calls ≡ before ++ added
    pub others : All (λ t. ¬ (get String_discrete "hash" t ≡ some h)) added

  hash_kept :
      (n : ℤ) (removed params : List String)
      → removed_params n ≡ some removed
      → remove_all String_discrete removed params_to_keep ≡ ok params
      → contains String_discrete params "hash" ≡ true
  unfolding remove_all contains String_discrete
  hash_kept (negsuc n) removed params rule kept = cc
  hash_kept (pos n) removed params rule kept = elim (Bool-cases (n == 0 || n == 1)) [
    | inl e ↦ known legacy_removed _ (rw e at rule) refl refl
    | inr f ↦ elim (Bool-cases (n == 2 || n == 3)) [
      | inl e ↦ known dynamic_removed _ (rw (f, e) at rule) refl refl
      | inr g ↦ cc (rw (f, g) at rule)
    ]
  ]
    where
      known :
          (r p : List String)
          → some r ≡ some removed
          → remove_all String_discrete r params_to_keep ≡ ok p
          → contains String_discrete p "hash" ≡ true
          → contains String_discrete params "hash" ≡ true
      known r p same kept' has =
          let removed_is : removed ≡ r = cc in
          subst (λ q. contains String_discrete q "hash" ≡ true)
            (ok-injective (sym kept' ∙ (rw removed_is at kept))) has

  hash-IsCleaned :
      (transaction result : Object)
      → IsCleaned node transaction result
      → get String_discrete "hash" result ≡ get String_discrete "hash" transaction
  hash-IsCleaned transaction result c =
      (c.fields).others "hash" (ne_of_compare "hash" "from" refl) (ne_of_compare "hash" "to" refl)
      ∙ rw (hash_kept c.type_number c.removed c.params c.rule c.kept) refl

  -- One more simulation, of another transaction.
  Skips-call :
      (h : Value) (before : List Object) (s : State) (t : Object)
      → ¬ (get String_discrete "hash" t ≡ some h)
      → Skips h before s
      → Skips h before (record s { calls = s.calls ++ t ∷ [] })
  Skips-call h before s t n k = record {
    still_failed = k.still_failed;
    added = k.added ++ t ∷ [];
    log = ap (λ l. l ++ t ∷ []) k.log ∙ append_assoc before k.added (t ∷ []);
    others = All-append _ k.added (t ∷ []) k.others (n, tt);
  }

  Skips-asked :
      (h : Value) (before : List Object) (transaction : Object) (s : State) (calls : List Object)
      → ¬ (get String_discrete "hash" transaction ≡ some h)
      → IsAsked node transaction s.calls calls
      → Skips h before s
      → Skips h before (record s { calls = calls })
  Skips-asked h before transaction s calls n (inl same) k =
      subst (λ l. Skips h before (record s { calls = l })) (sym same) k
  Skips-asked h before transaction s calls n (inr (result, c, one)) k =
      subst (λ l. Skips h before (record s { calls = l })) (sym one)
        (Skips-call h before s result (λ e. n (sym (hash-IsCleaned transaction result c) ∙ e)) k)

  Skips-Ending :
      (h : Value) (before : List Object) (transaction : Object) (s : State)
      (out : State × Result (Option Object))
      → ¬ (get String_discrete "hash" transaction ≡ some h)
      → Ending node transaction s out
      → Skips h before s
      → Skips h before out.0
  Skips-Ending h before transaction s out n (cleaned result c e) k =
      Skips-asked h before transaction s _ n (inr (result, c, refl)) k
  Skips-Ending h before transaction s out n (failed hash calls e asked) k =
      let k' = Skips-asked h before transaction s calls n asked k in
      record {
        still_failed = mem-add Value_discrete hash s.failed_transactions k'.still_failed;
        added = k'.added;
        log = k'.log;
        others = k'.others;
      }
  Skips-Ending h before transaction s out n (without_hash calls e asked) k =
      Skips-asked h before transaction s calls n asked k

  module _ (h : Value) (before : List Object) where
    prints :
        (s : State) (t : Object)
        → Skips h before s
        → Skips h before (record s { printed = s.printed ++ t ∷ [] })
    prints s t k = record {
      still_failed = k.still_failed;
      added = k.added;
      log = k.log;
      others = k.others;
    }

    process_pending-Keeps :
        (transaction : Object)
        → ¬ (get String_discrete "hash" transaction ≡ some h)
        → Keeps (Skips h before) (process_pending node transaction)
    unfolding process_pending
    process_pending-Keeps transaction n =
        Keeps-bind (clean_transaction node transaction) (process_cleaned node)
          (record {
            after = λ s k.
                Skips-Ending h before transaction s _ n
                  (clean_transaction-Ending node transaction s) k;
          })
          (process_cleaned-Keeps node (Skips h before) prints)

    -- Either the hash has failed before, or it is not h.
    process_unless_failed-Keeps :
        (hash : Value) (transaction : Object)
        → get String_discrete "hash" transaction ≡ some hash
        → Keeps (Skips h before) (process_unless_failed node hash transaction)
    unfolding process_unless_failed gets ◌>>=◌ pure
    process_unless_failed-Keeps hash transaction e = record {
      after = λ s k. elim (Bool-cases (contains Value_discrete s.failed_transactions hash)) [
        | inl t ↦ rw t k
        | inr f ↦ rw f (
            (process_pending-Keeps transaction (λ same. cc (
              f,
              contains_of_mem Value_discrete s.failed_transactions k.still_failed,
              e,
              same,
            ))).after
              s k)
      ];
    }

    get_of_field :
        (transaction : Object) (hash : Value)
        → field "hash" transaction ≡ ok hash
        → get String_discrete "hash" transaction ≡ some hash
    unfolding field
    get_of_field transaction hash e = of_found (get String_discrete "hash" transaction) e
      where
        of_found : (o : Option Value) → found o ≡ ok hash → o ≡ some hash
        of_found none bad = cc
        of_found (some v) good = ap some (ok-injective good)

    receive_transaction-Keeps :
        (m : ChannelMessage) → Keeps (Skips h before) (receive_transaction node m)
    unfolding receive_transaction
    receive_transaction-Keeps m =
        Keeps-if (holds (String_discrete m.type_name "message")) _ (pure tt)
          (Keeps-bind-lift (data_of m.channel_data) _ (λ transaction_data _.
            Keeps-bind-lift (node.loads transaction_data) _ (λ transaction _.
              Keeps-bind-lift (field "hash" transaction) _ (λ hash e.
                process_unless_failed-Keeps hash transaction (get_of_field transaction hash e)))))
          (Keeps-pure tt)

    process_pending_transactions-Skips :
        (messages : List ChannelMessage) (s : State)
        → Skips h before s
        → Skips h before (process_pending_transactions node messages s)
    unfolding process_pending_transactions
    process_pending_transactions-Skips [] s k = k
    process_pending_transactions-Skips (m ∷ rest) s k =
        process_pending_transactions-Skips rest (receive_transaction node m s).0
          ((receive_transaction-Keeps m).after s k)

  -- A hash that is among the failed ones stays there, whatever messages are received, and none of
  -- the transactions that are simulated from then on has it, however the node answers.
  pub failed-Skips :
      (h : Value) (messages : List ChannelMessage) (s : State)
      → Memᴰ h s.failed_transactions
      → Skips h s.calls (process_pending_transactions node messages s)
  failed-Skips h messages s m =
      process_pending_transactions-Skips h s.calls messages s
        (record { still_failed = m; added = []; log = sym (append-nil s.calls); others = tt })
