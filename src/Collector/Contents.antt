-- ===== src/Collector/Contents.antt =====
-- The addresses that a list of buffers holds.
use mathlib.Core.Path.{subst}
use pp_final_project.Prelude.{
  ℕ, zero, suc, ◌+◌, ◌≤◌, ◌<◌, ◌≡◌, refl, sym, ap, ◌∙◌, List, [], ◌∷◌, ◌++◌, length, take, drop,
  blit, blit-zero, blit-suc, length-append, length-take, length-blit, append_assoc, Option, none,
  some, All, Run, done, Returns, Returns-imp, arith, append-nil,
}
use pp_final_project.Buffer.Defs.{AddrBuffer}
use pp_final_project.Buffer.Lists.{Store, put, store}
use pp_final_project.Buffer.Chain.{IsChain, NotIn, load_at, put_self, put_other, IsChain-put}
use pp_final_project.Queue.Fifo.{memcpy-done}
use pp_final_project.Collector.Gather.{count_loop, gather_loop}

-- The addresses of one buffer.
abbrev pub held : Option AddrBuffer → List ℕ
held none = []
held (some b) = take b.n_addrs b.addrs

-- Those of a list of buffers, one after the other.
abbrev pub contents : (ℕ → Option AddrBuffer) → List ℕ → List ℕ
contents f [] = []
contents f (x ∷ xs) = held (f x) ++ contents f xs

-- The arrays have room for the addresses.
abbrev pub Sized : (ℕ → Option AddrBuffer) → List ℕ → Type 0
Sized f xs = All (λ x. (b : AddrBuffer) → f x ≡ some b → b.n_addrs ≤ length b.addrs) xs

contents-put :
    (f : ℕ → Option AddrBuffer) (i : ℕ) (b : Option AddrBuffer) (xs : List ℕ)
    → NotIn i xs
    → contents (put f i b) xs ≡ contents f xs
contents-put f i b [] n = refl
contents-put f i b (x ∷ xs) n = rw (put_other f i x b n.0, contents-put f i b xs n.1) refl

Sized-put :
    (f : ℕ → Option AddrBuffer) (i : ℕ) (b : Option AddrBuffer) (xs : List ℕ)
    → NotIn i xs
    → Sized f xs
    → Sized (put f i b) xs
Sized-put f i b [] n h = tt
Sized-put f i b (x ∷ xs) n h =
    (λ c e. h.0 c (sym (put_other f i x b n.0) ∙ e), Sized-put f i b xs n.1 h.1)

-- A copy behind the first `n` cells.
pub take-blit :
    (a : List ℕ) (n : ℕ) (ys : List ℕ)
    → n + length ys ≤ length a
    → take (n + length ys) (blit a n ys) ≡ take n a ++ ys
take-blit a zero ys h = rw (blit-zero a ys (omega arith)) (take_all ys (drop (length ys) a))
  where
    take_all : (xs zs : List ℕ) → take (0 + length xs) (xs ++ zs) ≡ xs
    take_all [] zs = refl
    take_all (x ∷ xs) zs =
        let e : 0 + suc (length xs) ≡ suc (0 + length xs) = omega arith in
        rw e (ap (◌∷◌ x) (take_all xs zs))
take-blit [] (suc n) ys h = absurd (omega arith)
take-blit (x ∷ a) (suc n) ys h =
    let e : suc n + length ys ≡ suc (n + length ys) = omega arith in
    rw (e, blit-suc x a n ys) (ap (◌∷◌ x) (take-blit a n ys (omega arith)))

pub length-held :
    (f : ℕ → Option AddrBuffer) (x : ℕ) (b : AddrBuffer)
    → f x ≡ some b
    → b.n_addrs ≤ length b.addrs
    → length (held (f x)) ≡ b.n_addrs
length-held f x b e h = rw e (length-take b.n_addrs b.addrs ∙ omega arith)

pair_done : {a a' c c' : ℕ} → a ≡ a' → c ≡ c' → ◌≡◌ {A = Run (ℕ × ℕ)} (done (a, c)) (done (a', c'))
pair_done {a} {a'} {c} {c'} e f = cc

-- The count of the first loop.
pub count_loop_lem :
    (fuel : ℕ) (s : Store) (i : ℕ) (xs : List ℕ) (n c : ℕ)
    → IsChain s.bufs (some i) (i ∷ xs)
    → Sized s.bufs (i ∷ xs)
    → length xs < fuel
    → count_loop fuel s i n c ≡ done (n + length (contents s.bufs (i ∷ xs)), c + length (i ∷ xs))
unfolding count_loop
count_loop_lem zero s i xs n c ch z few = absurd (omega arith)
count_loop_lem (suc fuel) s i [] n c (e, b, at, rest) z few =
    rw (load_at s i b at, count_loop)
      (rw (rest, count_loop)
        (pair_done
          (omega (arith, length-held s.bufs i b at (z.0 b at), length-append (held (s.bufs i)) []))
          (omega arith)))
count_loop_lem (suc fuel) s i (j ∷ xs) n c (e, b, at, rest) z few =
    rw (load_at s i b at, count_loop)
      (rw (rest.0, count_loop)
        (count_loop_lem fuel s j xs (n + b.n_addrs) (suc c) (refl, rest.1, rest.2, rest.3) z.1
            (omega arith)
          ∙ pair_done
              (omega (
                arith,
                length-held s.bufs i b at (z.0 b at),
                length-append (held (s.bufs i)) (contents s.bufs (j ∷ xs)),
              ))
              (omega arith)))

-- A buffer with the addresses `l`, and room for `room` addresses.
pub record Filled (f : ℕ → Option AddrBuffer) (ret room : ℕ) (l : List ℕ) : Type 0 where
  pub buffer : AddrBuffer
  pub at : f ret ≡ some buffer
  pub n : buffer.n_addrs ≡ length l
  pub cells : take buffer.n_addrs buffer.addrs ≡ l
  pub room_left : room ≤ length buffer.addrs

-- The copies of the last loop.
pub gather_loop-Filled :
    (fuel ret : ℕ) (s : Store) (p : Option ℕ) (xs l : List ℕ) (room : ℕ)
    → IsChain s.bufs p xs
    → Sized s.bufs xs
    → NotIn ret xs
    → length xs ≤ fuel
    → Filled s.bufs ret room l
    → length l + length (contents s.bufs xs) ≤ room
    → Returns (gather_loop fuel ret s p) (λ s'. Filled s'.bufs ret room (l ++ contents s.bufs xs))
unfolding gather_loop
gather_loop-Filled fuel ret s p [] l room c z out few f enough =
    rw c (subst (Filled s.bufs ret room) (sym (append-nil l)) f)
gather_loop-Filled zero ret s p (x ∷ xs) l room c z out few f enough = absurd (omega arith)
gather_loop-Filled (suc fuel) ret s p (x ∷ xs) l room (e, b, at, rest) z out few f enough =
    let rb = f.buffer in
    let size : length (take b.n_addrs b.addrs) ≡ b.n_addrs =
      omega (arith, length-take b.n_addrs b.addrs, z.0 b at) in
    let split = length-append (held (s.bufs x)) (contents s.bufs xs) in
    let same : length (held (s.bufs x)) ≡ b.n_addrs = length-held s.bufs x b at (z.0 b at) in
    let fits : rb.n_addrs + b.n_addrs ≤ length rb.addrs = omega (arith, f.n, f.room_left) in
    rw e (
      rw (load_at s x b at, gather_loop)
        (rw (load_at s ret rb f.at, gather_loop)
          (rw
            (
              memcpy-done rb.addrs rb.n_addrs b.addrs 0 b.n_addrs (omega (arith, z.0 b at)) fits,
              gather_loop,
            )
            (Returns-imp (gather_loop fuel ret (store s ret (copied rb)) b.next)
              (λ s' h. subst (Filled s'.bufs ret room) regroup h)
              (gather_loop-Filled fuel ret (store s ret (copied rb)) b.next xs
                (l ++ held (s.bufs x)) room
                (IsChain-put s.bufs ret (some (copied rb)) b.next xs out.1 rest)
                (Sized-put s.bufs ret (some (copied rb)) xs out.1 z.1) out.1 (omega arith)
                (record {
                  buffer = copied rb;
                  at = put_self s.bufs ret (some (copied rb));
                  n = omega (arith, f.n, same, length-append l (held (s.bufs x)));
                  cells =
                      ap
                        (λ k.
                          take (rb.n_addrs + k) (blit rb.addrs rb.n_addrs (take b.n_addrs b.addrs)))
                        (sym size)
                      ∙ take-blit rb.addrs rb.n_addrs (take b.n_addrs b.addrs) (omega arith)
                      ∙ rw (f.cells, at) refl;
                  room_left = omega (
                    arith,
                    f.room_left,
                    length-blit rb.addrs rb.n_addrs (take b.n_addrs b.addrs),
                  );
                })
                (omega (
                  arith,
                  split,
                  length-append l (held (s.bufs x)),
                  ap length (contents-put s.bufs ret (some (copied rb)) xs out.1),
                )))))))
  where
    copied : AddrBuffer → AddrBuffer
    copied rb = record rb {
      addrs = blit rb.addrs rb.n_addrs (take b.n_addrs b.addrs);
      n_addrs = rb.n_addrs + b.n_addrs;
    }

    regroup :
        (l ++ held (s.bufs x)) ++ contents (put s.bufs ret (some (copied f.buffer))) xs
        ≡ l ++ contents s.bufs (x ∷ xs)
    regroup =
        ap (λ t. (l ++ held (s.bufs x)) ++ t)
          (contents-put s.bufs ret (some (copied f.buffer)) xs out.1)
        ∙ append_assoc l (held (s.bufs x)) (contents s.bufs xs)
