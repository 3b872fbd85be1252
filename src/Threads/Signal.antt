-- ===== src/Threads/Signal.antt =====
-- The signals to the threads, `forkscan_proc_signal_all_except` and `forkscan_proc_signal` of
-- forkscan-changed/proc.c.
use pp_final_project.Prelude.{
  ℕ, zero, suc, ◌+◌, ◌≤◌, ◌≡◌, refl, sym, ap, ap₂, ◌∙◌, Bool, true, false, List, [], ◌∷◌, ◌++◌,
  length, ◌==◌, append-nil, append_assoc, Option, none, some, if◌then◌else◌, Run, done, fail, fatal,
  arith, Bool-cases, inl, inr,
}
use pp_final_project.Threads.Defs.{
  Td, Threads, Kill, sent, einval, esrch, selected, after_kill, signal_loop, proc_signal_all_except,
  proc_signal,
}
use pp_final_project.Threads.Chain.{IsChain}
use pp_final_project.Threads.Registry.{Registry}

-- The list without the record `except`.
abbrev pub others : ℕ → List ℕ → List ℕ
others except [] = []
others except (x ∷ xs) = if except == x then others except xs else x ∷ others except xs

abbrev pub remaining : Option ℕ → List ℕ → List ℕ
remaining none xs = xs
remaining (some except) xs = others except xs

-- The numbers of the active threads of a list of records.
pub active : (ℕ → Td) → List ℕ → List ℕ
active f [] = []
active f (x ∷ xs) = elim ((f x).is_active) [ true ↦ (f x).self ∷ active f xs | false ↦ active f xs ]

module _ (kill : ℕ → Kill) where
  -- How many threads `pthread_kill` does not fail for.
  pub n_sent : List ℕ → ℕ
  n_sent [] = 0
  n_sent (tid ∷ tids) = elim (kill tid) [
    | sent ↦ suc (n_sent tids)
    | einval ↦ n_sent tids
    | esrch ↦ n_sent tids
  ]

  -- `pthread_kill` returns `EINVAL` for some thread.
  pub some_invalid : List ℕ → Bool
  some_invalid [] = false
  some_invalid (tid ∷ tids) = elim (kill tid) [
    | sent ↦ some_invalid tids
    | einval ↦ true
    | esrch ↦ some_invalid tids
  ]

abbrev pub outcome : Bool → ℕ → List ℕ → Run (ℕ × List ℕ)
outcome b n calls = if b then fail fatal else done (n, calls)

-- What comes of signals to all of `tids`, in order.
abbrev pub signalled : (ℕ → Kill) → List ℕ → ℕ → List ℕ → Run (ℕ × List ℕ)
signalled kill tids n calls =
    outcome (some_invalid kill tids) (n + n_sent kill tids) (calls ++ tids)

-- The loop after one thread.
after_kill_lem :
    (kill : ℕ → Kill) (tid : ℕ) (tids calls : List ℕ) (rest : ℕ → Run (ℕ × List ℕ)) (n : ℕ)
    (k : Kill)
    → kill tid ≡ k
    → ((n : ℕ) → rest n ≡ signalled kill tids n (calls ++ tid ∷ []))
    → after_kill k rest n ≡ signalled kill (tid ∷ tids) n calls
unfolding after_kill n_sent some_invalid
after_kill_lem kill tid tids calls rest n sent e h =
    rw (e, n_sent, some_invalid)
      (h (n + 1)
        ∙ ap₂ (outcome (some_invalid kill tids)) (omega arith) (append_assoc calls (tid ∷ []) tids))
after_kill_lem kill tid tids calls rest n einval e h = rw (e, some_invalid) refl
after_kill_lem kill tid tids calls rest n esrch e h =
    rw (e, n_sent, some_invalid)
      (h n
        ∙ ap (outcome (some_invalid kill tids) (n + n_sent kill tids))
            (append_assoc calls (tid ∷ []) tids))

-- One more record, with the test of the loop.
remaining-selected :
    (f : ℕ → Td) (except : Option ℕ) (x : ℕ) (xs : List ℕ)
    → selected except x (f x) ≡ true
    → active f (remaining except (x ∷ xs)) ≡ (f x).self ∷ active f (remaining except xs)
unfolding active
remaining-selected f none x xs e = rw e refl
remaining-selected f (some except) x xs e =
    let apart : (except == x) ≡ false = ground arith in
    let running : (f x).is_active ≡ true = ground arith in rw apart (rw running refl)

remaining-passed :
    (f : ℕ → Td) (except : Option ℕ) (x : ℕ) (xs : List ℕ)
    → selected except x (f x) ≡ false
    → active f (remaining except (x ∷ xs)) ≡ active f (remaining except xs)
unfolding active
remaining-passed f none x xs e = rw e refl
remaining-passed f (some except) x xs e = elim (Bool-cases (except == x)) [
  | inl here ↦ rw here refl
  | inr apart ↦ let resting : (f x).is_active ≡ false = ground arith in rw apart (rw resting refl)
]

signal_loop_lem :
    (fuel : ℕ) (kill : ℕ → Kill) (except : Option ℕ) (s : Threads) (p : Option ℕ) (xs : List ℕ)
    → IsChain s.td p xs
    → length xs ≤ fuel
    → (n : ℕ) (calls : List ℕ)
    → signal_loop fuel kill except s p n calls
      ≡ signalled kill (active s.td (remaining except xs)) n calls
unfolding signal_loop active n_sent some_invalid
signal_loop_lem fuel kill except s p [] c few n calls = rw c (ended except)
  where
    ended : (o : Option ℕ) → done (n, calls) ≡ signalled kill (active s.td (remaining o [])) n calls
    ended none = ap₂ (λ a b. done (a, b)) (omega arith) (sym (append-nil calls))
    ended (some i) = ap₂ (λ a b. done (a, b)) (omega arith) (sym (append-nil calls))
signal_loop_lem zero kill except s p (x ∷ xs) c few n calls = absurd (omega arith)
signal_loop_lem (suc fuel) kill except s p (x ∷ xs) (e, c) few n calls =
    let tids = active s.td (remaining except xs) in
    let ih = signal_loop_lem fuel kill except s (s.td x).next xs c (omega arith) in
    rw e (elim (Bool-cases (selected except x (s.td x))) [
      | inr passed ↦
          rw (passed, signal_loop)
            (ih n calls
              ∙ ap (λ t. signalled kill t n calls) (sym (remaining-passed s.td except x xs passed)))
      | inl chosen ↦
          rw (chosen, signal_loop)
            (after_kill_lem kill (s.td x).self tids calls
                (λ n. signal_loop fuel kill except s (s.td x).next n (calls ++ (s.td x).self ∷ []))
                n (kill (s.td x).self) refl (λ n. ih n (calls ++ (s.td x).self ∷ []))
              ∙ ap (λ t. signalled kill t n calls)
                  (sym (remaining-selected s.td except x xs chosen)))
    ])

-- If `pthread_kill` returns `EINVAL` for no active thread on the list but the one left out,
-- `proc_signal_all_except` calls it once for each of them, in the order of the list, and for no other, and
-- returns the number of those for which the call does not fail; otherwise it ends the program.
-- `proc_signal` does the same and leaves out none.
pub proc_signal_lem :
    (fuel : ℕ) (kill : ℕ → Kill) (except : ℕ) (s : Threads) (live exited : List ℕ)
    → Registry s live exited
    → length live ≤ fuel
    → (proc_signal_all_except fuel kill except s
        ≡ signalled kill (active s.td (others except live)) 0 [])
      × (proc_signal fuel kill s ≡ signalled kill (active s.td live) 0 [])
unfolding proc_signal_all_except proc_signal
proc_signal_lem fuel kill except s live exited r few = (
  signal_loop_lem fuel kill (some except) s s.head live r.chain few 0 [],
  signal_loop_lem fuel kill none s s.head live r.chain few 0 [],
)
