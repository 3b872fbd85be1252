-- ===== src/Free/View.antt =====
-- What the freeing threads see of a buffer: its cells, their number and `free_idx`. The operations on the
-- queue of retiree buffers leave this as it is.
use native.Mathlib.Decide.{ℕ_discrete}
use pp_final_project.Prelude.{
  ℕ, suc, ◌≡◌, refl, sym, ap, ◌∙◌, Bool, true, false, not, List, leb, ◌==◌, ◌&&◌, Option, none,
  some, Run, done, fail, ◌>>=◌, ◌>>◌, null_deref, assert, Bool-cases, inl, inr,
}
use pp_final_project.Buffer.Defs.{AddrBuffer}
use pp_final_project.Buffer.Lists.{
  Store, put, load, store, share_first, get_retiree_buffer, find_retiree, splice, pop_found,
  pop_retiree_buffer, release_buffer, unref_buffer, same_ptr, increment, decrement,
}
use pp_final_project.Buffer.Chain.{put_self, put_other}

pub record Cells : Type 0 where
  pub addrs : List ℕ
  pub n_addrs : ℕ
  pub free_idx : ℕ

abbrev pub view : Option AddrBuffer → Option Cells
view none = none
view (some b) = some (record { addrs = b.addrs; n_addrs = b.n_addrs; free_idx = b.free_idx })

abbrev pub cells_of : Store → ℕ → Option Cells
cells_of s k = view (s.bufs k)

-- A call that ends normally ends with `P`.
abbrev pub Ensures {ℓ} : {A : Type ℓ} → Run A → (A → Type 0) → Type 0
Ensures (done a) P = P a
Ensures (fail e) P = Unit

pub Ensures-bind {ℓ κ} :
    {A : Type ℓ} {B : Type κ} {P : A → Type 0} (Q : B → Type 0) (m : Run A) (f : A → Run B)
    → Ensures m P
    → ((a : A) → P a → Ensures (f a) Q)
    → Ensures (m >>= f) Q
Ensures-bind Q (done a) f h step = step a h
Ensures-bind Q (fail e) f h step = tt

pub Ensures-imp {ℓ} :
    {A : Type ℓ} {P Q : A → Type 0} (m : Run A) → ((a : A) → P a → Q a) → Ensures m P → Ensures m Q
Ensures-imp (done a) f h = f a h
Ensures-imp (fail e) f h = h

pub Ensures-assert {κ} :
    {B : Type κ} (Q : B → Type 0) (b : Bool) (m : Run B) → Ensures m Q → Ensures (assert b >> m) Q
Ensures-assert Q true m h = h
Ensures-assert Q false m h = tt

pub Ensures-assert-if {κ} :
    {B : Type κ} (Q : B → Type 0) (b : Bool) (m : Run B)
    → (b ≡ true → Ensures m Q)
    → Ensures (assert b >> m) Q
Ensures-assert-if Q true m h = h refl
Ensures-assert-if Q false m h = tt

abbrev pub SameCells : Store → Store → Type 0
SameCells s s' = (k : ℕ) → cells_of s' k ≡ cells_of s k

pub load_lem : (s : Store) (i : ℕ) → Ensures (load s i) (λ b. s.bufs i ≡ some b)
load_lem s i = at (s.bufs i)
  where
    at :
        (o : Option AddrBuffer)
        → Ensures (elim o [ none ↦ fail null_deref | some b ↦ done b ]) (λ b. o ≡ some b)
    at none = tt
    at (some b) = refl

-- A write that leaves the cells of the buffer.
pub store-SameCells :
    (s : Store) (i : ℕ) (b b' : AddrBuffer)
    → s.bufs i ≡ some b
    → view (some b') ≡ view (some b)
    → (k : ℕ) → view (put s.bufs i (some b') k) ≡ cells_of s k
store-SameCells s i b b' at same k = elim (ℕ_discrete i k) [
  | yes e ↦
      ap view (ap (put s.bufs i (some b')) (sym e) ∙ put_self s.bufs i (some b'))
      ∙ same
      ∙ ap view (sym at ∙ ap s.bufs e)
  | no n ↦ ap view (put_other s.bufs i k (some b') n)
]

share_first-SameCells :
    (s : Store) (o : Option ℕ)
    → Ensures
        (share_first s o)
        (λ p. SameCells s p.0 × ((k : ℕ) → p.1 ≡ some k → (c : Cells) × (cells_of p.0 k ≡ some c)))
unfolding share_first
share_first-SameCells s none = (λ k. refl, λ k e. cc)
share_first-SameCells s (some i) = Ensures-bind _ (load s i) _ (load_lem s i) (λ b at. (
  store-SameCells s i b (record b { ref_count = increment b.ref_count }) at refl,
  λ k e.
      let same : i ≡ k = cc in
      (
        record { addrs = b.addrs; n_addrs = b.n_addrs; free_idx = b.free_idx },
        store-SameCells s i b (record b { ref_count = increment b.ref_count }) at refl k
            ∙ ap (λ j. view (s.bufs j)) (sym same)
            ∙ ap view at,
      ),
))

-- The buffer handed out is there.
pub get_retiree_buffer-SameCells :
    (s : Store)
    → Ensures
        (get_retiree_buffer s)
        (λ p. SameCells s p.0 × ((k : ℕ) → p.1 ≡ some k → (c : Cells) × (cells_of p.0 k ≡ some c)))
unfolding get_retiree_buffer
get_retiree_buffer-SameCells s = share_first-SameCells s s.first_retiree

splice-SameCells : (i : ℕ) (o : Option ℕ) (s : Store) → Ensures (splice i o s) (SameCells s)
unfolding splice
splice-SameCells i none s = Ensures-bind _ (load s i) _ (load_lem s i) (λ b at k. refl)
splice-SameCells i (some prev) s = Ensures-bind _ (load s i) _ (load_lem s i) (λ b at.
    Ensures-bind _ (load s prev) _ (load_lem s prev)
      (λ pb atp. store-SameCells s prev pb (record pb { next = b.next }) atp refl))

pop_found-SameCells :
    (i : ℕ) (s : Store) (found : Option ℕ × Option ℕ) → Ensures (pop_found i s found) (SameCells s)
unfolding pop_found
pop_found-SameCells i s (prev, none) = λ k. refl
pop_found-SameCells i s (prev, some curr) = splice-SameCells i prev s

Ensures-any {ℓ} : {A : Type ℓ} (m : Run A) → Ensures m (λ _. Unit)
Ensures-any (done a) = tt
Ensures-any (fail e) = tt

pub pop_retiree_buffer-SameCells :
    (i : ℕ) (s : Store) → Ensures (pop_retiree_buffer i s) (SameCells s)
unfolding pop_retiree_buffer
pop_retiree_buffer-SameCells i s =
    Ensures-bind _ (find_retiree (suc s.fresh) i s none s.first_retiree) _
      (Ensures-any (find_retiree (suc s.fresh) i s none s.first_retiree))
      (λ found _. pop_found-SameCells i s found)

release_buffer-SameCells : (i : ℕ) (s : Store) → Ensures (release_buffer i s) (SameCells s)
unfolding release_buffer
release_buffer-SameCells i s = Ensures-assert _ (not (same_ptr s.first_retiree i)) _ (
    Ensures-assert _ (not (same_ptr s.last_retiree i)) _ (
      Ensures-bind _ (load s i) _ (load_lem s i) (λ b at. elim (Bool-cases b.is_aggregate) [
        | inl yes_aggregate ↦
            rw yes_aggregate
              (store-SameCells s i b (record b { next = s.available_aggregates }) at refl)
        | inr no_aggregate ↦ rw no_aggregate (
            Ensures-assert _ (b.capacity == s.default_capacity) _
              (store-SameCells s i b (record b { next = s.reclaimer_list }) at refl))
      ])))

pub unref_buffer-SameCells : (i : ℕ) (s : Store) → Ensures (unref_buffer i s) (SameCells s)
unfolding unref_buffer
unref_buffer-SameCells i s = Ensures-bind _ (load s i) _ (load_lem s i) (λ b at.
    let ab = record b { ref_count = decrement b.ref_count } in
    let s' = store s i ab in
    let same = store-SameCells s i b ab at refl in
    elim (Bool-cases ((decrement b.ref_count == 0) && leb b.n_addrs b.free_idx)) [
      | inr held ↦ rw held same
      | inl last ↦ rw last (
          Ensures-imp (release_buffer i s') (λ s2 same2 k. same2 k ∙ same k)
            (release_buffer-SameCells i s'))
    ])
