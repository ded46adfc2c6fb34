-- ===== src/Arbitrage/Service/Queue.antt =====
-- find_onchain_arbs works off the queue in order.
use cream_bots.Prelude.{
  ℕ, zero, suc, ◌-◌, ◌≤◌, String, List, [], ◌∷◌, ◌++◌, ◌≡◌, refl, map, arith, length, ap, ◌∙◌, sym,
}
use mathlib.Core.Path.{ap₂}
use mathlib.Core.List.{append_assoc, append-nil}
use cream_bots.Degenbot.{Degenbot}
use cream_bots.Arbitrage.Types.{AllArbs}
use cream_bots.Arbitrage.Affected.{find_affected_arbs}
use cream_bots.Arbitrage.Service.{
  Loop, spawn, task_done, find_onchain_arbs, find_onchain_arbs_round,
}

-- The list without its empty members.
unfoldable pub nonempty {ℓ} : {A : Type ℓ} → List (List A) → List (List A)
nonempty [] = []
nonempty ([] ∷ ls) = nonempty ls
nonempty ((x ∷ xs) ∷ ls) = (x ∷ xs) ∷ nonempty ls

module _ (lib : Degenbot) (all_arbs : AllArbs (Degenbot.Cycle lib)) where
  open lib use {Cycle}

  spawned : List Cycle → List (List Cycle)
  unfolding nonempty
  spawned cs = nonempty (cs ∷ [])

  spawn-fields :
      (cs : List Cycle) (s : Loop lib)
      → ((spawn lib cs s).pools_to_process ≡ s.pools_to_process)
        × ((spawn lib cs s).unfinished ≡ s.unfinished)
        × ((spawn lib cs s).tasks ≡ s.tasks ++ nonempty (cs ∷ []))
  unfolding spawn nonempty
  spawn-fields [] s = (refl, refl, sym (append-nil s.tasks))
  spawn-fields (c ∷ cs) s = (refl, refl, refl)

  nonempty-append :
      {A : Type 0} (ls ms : List (List A)) → nonempty (ls ++ ms) ≡ nonempty ls ++ nonempty ms
  unfolding nonempty
  nonempty-append [] ms = refl
  nonempty-append ([] ∷ ls) ms = nonempty-append ls ms
  nonempty-append ((x ∷ xs) ∷ ls) ms = ap (λ r. (x ∷ xs) ∷ r) (nonempty-append ls ms)

  abbrev loop : List String → ℕ → List (List Cycle) → Loop lib
  loop queue unfinished tasks = record {
    pools_to_process = queue;
    unfinished = unfinished;
    tasks = tasks;
  }

  round_lem :
      (a : String) (rest : List String) (n : ℕ) (tasks : List (List Cycle))
      → find_onchain_arbs_round lib all_arbs (loop (a ∷ rest) n tasks)
        ≡ loop rest (n - 1) (tasks ++ nonempty (find_affected_arbs lib all_arbs a ∷ []))
  unfolding find_onchain_arbs_round spawn task_done nonempty
  round_lem a rest n tasks = split (find_affected_arbs lib all_arbs a)
    where
      split :
          (cs : List Cycle)
          → task_done lib (spawn lib cs (loop rest n tasks))
            ≡ loop rest (n - 1) (tasks ++ nonempty (cs ∷ []))
      split [] = ap (loop rest (n - 1)) (sym (append-nil tasks))
      split (c ∷ cs) = refl

  round_waits :
      (n : ℕ) (tasks : List (List Cycle))
      → find_onchain_arbs_round lib all_arbs (loop [] n tasks) ≡ loop [] n tasks
  unfolding find_onchain_arbs_round
  round_waits n tasks = refl

  -- After as many rounds as there are addresses in the queue it is empty, each address was marked
  -- as done, and there is one new task for each address that affects a cycle, in the queue's order.
  pub find_onchain_arbs_drains :
      (rounds : ℕ) (queue : List String) (n : ℕ) (tasks : List (List Cycle))
      → length queue ≤ rounds
      → find_onchain_arbs lib rounds all_arbs
          (record { pools_to_process = queue; unfinished = n; tasks = tasks })
        ≡ record {
          pools_to_process = [];
          unfinished = n - length queue;
          tasks = tasks ++ nonempty (map (find_affected_arbs lib all_arbs) queue);
        }
  unfolding find_onchain_arbs
  find_onchain_arbs_drains zero [] n tasks h = unfold nonempty in ground (arith, append-nil tasks)
  find_onchain_arbs_drains zero (a ∷ queue) n tasks h = absurd (omega arith)
  find_onchain_arbs_drains (suc rounds) [] n tasks h =
      rw (round_waits n tasks) (find_onchain_arbs_drains rounds [] n tasks (omega arith))
  find_onchain_arbs_drains (suc rounds) (a ∷ queue) n tasks h = rw (round_lem a queue n tasks) (
      find_onchain_arbs_drains rounds queue (n - 1)
        (tasks ++ nonempty (find_affected_arbs lib all_arbs a ∷ [])) (omega arith)
      ∙ ap₂ (loop []) (omega arith) (
          append_assoc tasks _ _
          ∙ ap (λ r. tasks ++ r)
              (sym (
                nonempty-append (find_affected_arbs lib all_arbs a ∷ [])
                  (map (find_affected_arbs lib all_arbs) queue)))))
