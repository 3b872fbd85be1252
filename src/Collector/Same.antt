-- ===== src/Collector/Same.antt =====
-- Stores that agree on the buffers of a list.
use pp_final_project.Prelude.{ℕ, ◌≡◌, refl, sym, ◌∙◌, List, [], ◌∷◌, All, Option}
use pp_final_project.Buffer.Defs.{AddrBuffer}
use pp_final_project.Buffer.Lists.{Store, put}
use pp_final_project.Buffer.Chain.{IsChain, NotIn, put_other}
use pp_final_project.Collector.Contents.{contents, Sized}
use pp_final_project.Collector.Kept.{Left}

-- The buffers of the list are as before.
abbrev pub Same : (ℕ → Option AddrBuffer) → (ℕ → Option AddrBuffer) → List ℕ → Type 0
Same f g ys = All (λ y. g y ≡ f y) ys

pub Same-chain :
    (f g : ℕ → Option AddrBuffer) (p : Option ℕ) (ys : List ℕ)
    → Same f g ys
    → IsChain f p ys
    → IsChain g p ys
Same-chain f g p [] h c = c
Same-chain f g p (y ∷ ys) h (e, b, at, rest) = (e, b, h.0 ∙ at, Same-chain f g b.next ys h.1 rest)

pub Same-Sized : (f g : ℕ → Option AddrBuffer) (ys : List ℕ) → Same f g ys → Sized f ys → Sized g ys
Same-Sized f g [] h z = tt
Same-Sized f g (y ∷ ys) h z = (λ b e. z.0 b (sym h.0 ∙ e), Same-Sized f g ys h.1 z.1)

pub Same-contents :
    (f g : ℕ → Option AddrBuffer) (ys : List ℕ) → Same f g ys → contents g ys ≡ contents f ys
Same-contents f g [] h = refl
Same-contents f g (y ∷ ys) h = rw (h.0, Same-contents f g ys h.1) refl

pub Same-refl : (f : ℕ → Option AddrBuffer) (ys : List ℕ) → Same f f ys
Same-refl f [] = tt
Same-refl f (y ∷ ys) = (refl, Same-refl f ys)

pub Same-put :
    (f g : ℕ → Option AddrBuffer) (i : ℕ) (v : Option AddrBuffer) (ys : List ℕ)
    → NotIn i ys
    → Same f g ys
    → Same f (put g i v) ys
Same-put f g i v [] n h = tt
Same-put f g i v (y ∷ ys) n h = (put_other g i y v n.0 ∙ h.0, Same-put f g i v ys n.1 h.1)

-- The buffers of a chain are outside the list `xs`.
abbrev pub Apart : List ℕ → List ℕ → Type 0
Apart xs ys = All (λ y. NotIn y xs) ys

pub Kept-Same :
    (xs : List ℕ) (s t : Store) (i : ℕ) (p : Option ℕ) (ys : List ℕ)
    → Left xs s (t, i)
    → Apart xs ys
    → IsChain s.bufs p ys
    → Same s.bufs t.bufs ys × NotIn i ys
Kept-Same xs s t i p [] k a c = (tt, tt)
Kept-Same xs s t i p (y ∷ ys) k a (e, b, at, rest) =
    let more = Kept-Same xs s t i b.next ys k a.1 rest in
    ((k.0.buffers y b at a.0 ∙ sym at, more.0), (k.1 y b at a.0, more.1))
