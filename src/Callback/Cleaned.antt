-- ===== src/Callback/Cleaned.antt =====
-- clean_transaction as a whole.
use cream_bots.Prelude.{
  String_discrete, Option, none, some, List, [], ◌∷◌, ◌++◌, ◌≡◌, refl, sym, subst, Exception,
  Result, ok, raise, length, inl, inr, add,
}
use cream_bots.Prelude.Dict.{get}
use cream_bots.Prelude.Exec.{pure, attempt, ◌>>=◌}
use cream_bots.Json.{Value, Value_discrete, Object}
use cream_bots.Callback.{State, Node, reject, try_clean, after_try, clean_transaction}
use cream_bots.Callback.Cleaning.{
  IsCleaned, IsAsked, IsTried, accepted, refused, unknown, reject-cases, try_clean-IsTried,
}

module _ (node : Node) where
  -- The three ways for clean_transaction to end.
  pub data Ending (transaction : Object) (s : State) : State × Result (Option Object) → Type 0 where
    -- The node accepted the cleaned transaction.
    cleaned :
        (result : Object)
        → IsCleaned node transaction result
        → node.eth_call (length s.calls) result ≡ ok tt
        → Ending transaction s (record s { calls = s.calls ++ result ∷ [] }, ok (some result))
    -- Something failed, and the hash is remembered.
    failed :
        (hash : Value) (calls : List Object)
        → get String_discrete "hash" transaction ≡ some hash
        → IsAsked node transaction s.calls calls
        → Ending transaction s (
          record s {
            calls = calls;
            failed_transactions = add Value_discrete hash s.failed_transactions;
          },
          ok none,
        )
    -- Something failed, and there is no hash to remember.
    without_hash :
        (calls : List Object)
        → get String_discrete "hash" transaction ≡ none
        → IsAsked node transaction s.calls calls
        → Ending transaction s (record s { calls = calls }, raise Exception.key_error)

  reject-Ending :
      (transaction : Object) (s : State) (calls : List Object)
      → IsAsked node transaction s.calls calls
      → Ending transaction s (reject node transaction (record s { calls = calls }))
  reject-Ending transaction s calls asked =
      elim (reject-cases node transaction (record s { calls = calls })) [
        | inl (h, e, ends) ↦ subst (Ending transaction s) (sym ends) (failed h calls e asked)
        | inr (e, ends) ↦ subst (Ending transaction s) (sym ends) (without_hash calls e asked)
      ]

  -- From the end of the `try` block on.
  abbrev finish : Object → State × Result (Option Object) → State × Result (Option Object)
  unfolding after_try
  finish transaction (s, r) = after_try node transaction r s

  finish-Ending :
      (transaction : Object) (s : State) (out : State × Result (Option Object))
      → IsTried node transaction s out
      → Ending transaction s (finish transaction out)
  unfolding after_try pure
  finish-Ending transaction s out (accepted result c e) = cleaned result c e
  finish-Ending transaction s out (refused calls e asked) = reject-Ending transaction s calls asked
  finish-Ending transaction s out unknown = elim (reject-cases node transaction s) [
    | inl (h, e, ends) ↦
        subst (λ o. Ending transaction s (finish transaction o)) (sym ends)
          (failed h s.calls e (inl refl))
    | inr (e, ends) ↦
        subst (λ o. Ending transaction s (finish transaction o)) (sym ends)
          (reject-Ending transaction s s.calls (inl refl))
  ]

  pub clean_transaction-Ending :
      (transaction : Object) (s : State)
      → Ending transaction s (clean_transaction node transaction s)
  unfolding clean_transaction attempt ◌>>=◌
  clean_transaction-Ending transaction s =
      finish-Ending transaction s (try_clean node transaction s)
        (try_clean-IsTried node transaction s)
