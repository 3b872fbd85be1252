-- ===== src/Free/Steps.antt =====
-- The changes that the steps of `forkscan_util_free_ptrs` make keep the invariant.
use mathlib.Core.Path.{subst}
use native.Mathlib.Decide.{ℕ_discrete, dec_lt}
use pp_final_project.Prelude.{
  ℕ, suc, ◌+◌, ◌%◌, ◌≤◌, ◌<◌, ◌≡◌, ◌≢◌, ◌⊎◌, inl, inr, refl, sym, ap, ◌∙◌, List, ◌∷◌, min, Option,
  some, set, arith, get_or-set_ne, length-set,
}
use pp_final_project.Buffer.Defs.{AddrBuffer}
use pp_final_project.Buffer.Lists.{Store, store}
use pp_final_project.Buffer.Chain.{put_self, put_other}
use pp_final_project.Scan.Binary.{◌!◌}
use pp_final_project.Free.Defs.{
  Place, looping, freeing, Freer, FreeCall, World, with_td, free_range_sz,
}
use pp_final_project.Free.View.{Cells, view, cells_of, SameCells}
use pp_final_project.Free.Invariant.{
  Freed, Fits, Owns, Mine, Apart, Sound, Inv, update_each, update-Apart,
}

module _ (limit : ℕ → ℕ) (orig : ℕ → ℕ → ℕ) (w : World) (inv : Inv limit orig w) (i : ℕ) where
  -- Thread `i` goes on as `t`, and the cells of the buffers stay.
  pub td-Inv :
      (s' : Store) (t : Freer)
      → SameCells w.buffers s'
      → Mine (cells_of w.buffers) w.freed t
      → ((j : ℕ) → i ≢ j → Apart t (w.tds j))
      → Inv limit orig (with_td (record w { buffers = s' }) i t)
  td-Inv s' t same m a = record {
    mine =
        update_each (Mine (cells_of s') w.freed) w.tds i t (moved t m)
          (λ j n. moved (w.tds j) (inv.mine j));
    apart = update-Apart w.tds i t inv.apart a;
    sound = λ k c at. inv.sound k c (sym (same k) ∙ at);
    once = inv.once;
  }
    where
      moved : (u : Freer) → Mine (cells_of w.buffers) w.freed u → Mine (cells_of s') w.freed u
      moved u h k e = let (c, at, o) = h k e in (c, same k ∙ at, o)

  -- It moves, and its range stays.
  pub place-Inv :
      (p : Place)
      → ((k : ℕ) (c : Cells)
          → (w.tds i).retiree_buffer ≡ some k
          → cells_of w.buffers k ≡ some c
          → Fits p (record (w.tds i) { place = p }) c.n_addrs)
      → Inv limit orig (with_td w i (record (w.tds i) { place = p }))
  place-Inv p fits =
      td-Inv w.buffers (record (w.tds i) { place = p }) (λ k. refl)
        (λ k e.
          let (c, at, o) = inv.mine i k e in
          (
            c,
            at,
            record {
              range = o.range;
              below = o.below;
              within = o.within;
              kept = o.kept;
              fits = fits k c e at;
            },
          ))
        (λ j n. inv.apart i j n)

  module _ (k : ℕ) (held : (w.tds i).retiree_buffer ≡ some k) (ab : AddrBuffer)
      (at : w.buffers.bufs k ≡ some ab) where
    abbrev here : Cells
    here = record { addrs = ab.addrs; n_addrs = ab.n_addrs; free_idx = ab.free_idx }

    pub here-Owns : Owns w.freed k (w.tds i) here
    here-Owns =
        let (c, e, o) = inv.mine i k held in
        let same : c ≡ here = let q = ap view at in cc in subst (Owns w.freed k (w.tds i)) same o

    pub here-Sound : Sound limit orig w.freed k here
    here-Sound = inv.sound k here (ap view at)

    -- The other buffers, where buffer `k` changes to `b`.
    module _ (b : AddrBuffer) where
      abbrev there : Cells
      there = record { addrs = b.addrs; n_addrs = b.n_addrs; free_idx = b.free_idx }

      abbrev stored : ℕ → Option Cells
      stored = cells_of (store w.buffers k b)

      stored_self : stored k ≡ some there
      stored_self = ap view (put_self w.buffers.bufs k (some b))

      stored_other : (k' : ℕ) → k ≢ k' → stored k' ≡ cells_of w.buffers k'
      stored_other k' n = ap view (put_other w.buffers.bufs k k' (some b) n)

      stored-Sound :
          (l : List FreeCall)
          → Sound limit orig l k there
          → ((k' : ℕ) (c : Cells)
              → k ≢ k'
              → Sound limit orig w.freed k' c
              → Sound limit orig l k' c)
          → (k' : ℕ) (c : Cells) → stored k' ≡ some c
          → Sound limit orig l k' c
      stored-Sound l new old k' c e = by_buffer (ℕ_discrete k k')
        where
          by_buffer : Dec (k ≡ k') → Sound limit orig l k' c
          by_buffer (yes p) =
              let same : there ≡ c = let q = sym stored_self ∙ ap stored p ∙ e in cc in
              subst (λ j. Sound limit orig l j c) p (subst (Sound limit orig l k) same new)
          by_buffer (no n) = old k' c n (inv.sound k' c (sym (stored_other k' n) ∙ e))

      stored-Mine :
          (l : List FreeCall) (u : Freer)
          → Mine (cells_of w.buffers) w.freed u
          → (Owns w.freed k u here → u.retiree_buffer ≡ some k → Owns l k u there)
          → ((k' : ℕ) (c : Cells) → k ≢ k' → Owns w.freed k' u c → Owns l k' u c)
          → Mine stored l u
      stored-Mine l u m new old k' e = by_buffer (ℕ_discrete k k') (m k' e)
        where
          by_buffer :
              Dec (k ≡ k')
              → (c : Cells) × (cells_of w.buffers k' ≡ some c) × Owns w.freed k' u c
              → (c : Cells) × (stored k' ≡ some c) × Owns l k' u c
          by_buffer (yes p) (c, f, o) =
              let same : c ≡ here = let q = ap view at in let r = ap (cells_of w.buffers) p in cc in
              (
                there,
                ap stored (sym p) ∙ stored_self,
                subst (λ j. Owns l j u there) p
                    (new
                      (subst (λ j. Owns w.freed j u here) (sym p)
                        (subst (Owns w.freed k' u) same o))
                      (e ∙ ap some (sym p))),
              )
          by_buffer (no n) (c, f, o) = (c, stored_other k' n ∙ f, old k' c n o)

    -- The thread has an address left, or is past the last one.
    abbrev pub Left : Type 0
    Left =
        ((w.tds i).begin_retiree_idx < (w.tds i).end_retiree_idx)
        ⊎ (ab.n_addrs ≤ (w.tds i).begin_retiree_idx)

    abbrev advanced : ℕ → Freer
    advanced round = record (w.tds i) {
      begin_retiree_idx = suc (w.tds i).begin_retiree_idx;
      place = looping (suc round);
    }

    advanced-Mine : (round : ℕ) → Left → Mine (cells_of w.buffers) w.freed (advanced round)
    advanced-Mine round some_left k' e =
        let (c, f, o) = inv.mine i k' e in
        let same : k ≡ k' = let h = held in cc in
        let n_e : c.n_addrs ≡ ab.n_addrs =
          let q = ap view at in let r = ap (cells_of w.buffers) same in cc in
        (
          c,
          f,
          record {
            range = elim some_left [ inl p ↦ inl (omega arith) | inr p ↦ inr (omega arith) ];
            below = o.below;
            within = o.within;
            kept = λ j g. elim (o.kept j g) [ inl p ↦ inl (omega arith) | inr p ↦ inr p ];
            fits = tt;
          },
        )

    advanced-Apart : (round j : ℕ) → i ≢ j → Apart (advanced round) (w.tds j)
    advanced-Apart round j n k' e f = elim (inv.apart i j n k' e f) [
      | inl p ↦ inl p
      | inr p ↦ inr (omega arith)
    ]

    -- A marked address is passed over.
    pub pass-Inv : (round : ℕ) → Left → Inv limit orig (with_td w i (advanced round))
    pass-Inv round some_left =
        td-Inv w.buffers (advanced round) (λ k. refl) (advanced-Mine round some_left)
          (advanced-Apart round)

    -- An address is freed.
    pub free-Inv :
        (round s : ℕ)
        → Left
        → ((w.tds i).begin_retiree_idx < ab.n_addrs → ab.addrs ! (w.tds i).begin_retiree_idx ≡ s)
        → s % 4 ≡ 0
        → Inv limit orig (record (with_td w i (advanced round)) {
          buffers =
              store w.buffers k (record ab { addrs = set ab.addrs (w.tds i).begin_retiree_idx 2 });
          freed = record { buffer = k; cell = (w.tds i).begin_retiree_idx; address = s } ∷ w.freed;
        })
    free-Inv round s some_left at_idx aligned = record {
      mine =
          update_each (Mine (stored b) l) w.tds i (advanced round)
            (stored-Mine b l (advanced round) (advanced-Mine round some_left)
              (λ o h. record {
                range = o.range;
                below = o.below;
                within = o.within;
                kept = λ j f. elim f [ inl e ↦ inl (omega arith) | inr g ↦ o.kept j g ];
                fits = tt;
              })
              (λ k' c n o. other_buffer (advanced round) k' c n o))
            (λ j n.
              stored-Mine b l (w.tds j) (inv.mine j)
                (λ o h. record {
                  range = o.range;
                  below = o.below;
                  within = o.within;
                  kept = λ m f. elim f [
                    | inl e ↦ elim some_left [
                      | inr past ↦ inr (omega (arith, o.within))
                      | inl inside ↦ elim (inv.apart i j n k held h) [
                        | inl p ↦ inl (omega arith)
                        | inr p ↦ inr (omega arith)
                      ]
                    ]
                    | inr g ↦ o.kept m g
                  ];
                  fits = o.fits;
                })
                (λ k' c n o. other_buffer (w.tds j) k' c n o));
      apart = update-Apart w.tds i (advanced round) inv.apart (advanced-Apart round);
      sound =
          stored-Sound b l
            (record {
              sized = omega (arith, here-Sound.sized, length-set ab.addrs idx 2);
              cells = λ j p. elim (ℕ_discrete idx j) [
                | yes e ↦ inr (inl (refl, e))
                | no n ↦ elim (here-Sound.cells j p) [
                  | inl q ↦ inl (get_or-set_ne ab.addrs idx j 2 0 n ∙ q)
                  | inr q ↦ inr (inr q)
                ]
              ];
              clean = here-Sound.clean;
              passed = λ j f. elim f [
                | inl e ↦ elim some_left [
                  | inl p ↦ inl (omega (arith, here-Owns.below))
                  | inr p ↦ inr (omega arith)
                ]
                | inr g ↦ here-Sound.passed j g
              ];
              count = here-Sound.count;
            })
            (λ k' c n o. record {
              sized = o.sized;
              cells = λ j p. elim (o.cells j p) [ inl q ↦ inl q | inr q ↦ inr (inr q) ];
              clean = o.clean;
              passed = λ j f. elim f [ inl e ↦ absurd (n (e.0)) | inr g ↦ o.passed j g ];
              count = o.count;
            });
      once = (λ h. let inside = within h in (not_freed inside, original inside), aligned, inv.once);
    }
      where
        idx : ℕ
        idx = (w.tds i).begin_retiree_idx

        b : AddrBuffer
        b = record ab { addrs = set ab.addrs idx 2 }

        l : List FreeCall
        l = record { buffer = k; cell = idx; address = s } ∷ w.freed

        within : idx < limit k → idx < (w.tds i).end_retiree_idx
        within h = elim some_left [ inl p ↦ p | inr p ↦ absurd (omega (arith, here-Sound.count)) ]

        not_freed : idx < (w.tds i).end_retiree_idx → Freed k idx w.freed → ⊥
        not_freed inside f = elim (here-Owns.kept idx f) [
          | inl p ↦ absurd (omega arith)
          | inr p ↦ absurd (omega arith)
        ]

        original : idx < (w.tds i).end_retiree_idx → s ≡ orig k idx
        original inside = elim (here-Sound.cells idx (omega (arith, here-Owns.within))) [
          | inl p ↦ sym (at_idx (omega (arith, here-Owns.within))) ∙ p
          | inr f ↦ absurd (not_freed inside f)
        ]

        other_buffer :
            (u : Freer) (k' : ℕ) (c : Cells) → k ≢ k' → Owns w.freed k' u c → Owns l k' u c
        other_buffer u k' c n o = record {
          range = o.range;
          below = o.below;
          within = o.within;
          kept = λ j f. elim f [ inl e ↦ absurd (n (e.0)) | inr g ↦ o.kept j g ];
          fits = o.fits;
        }

    -- A range is claimed.
    pub claim-Inv :
        (begin_idx end_idx round : ℕ)
        → ab.free_idx ≡ begin_idx
        → end_idx ≡ min ab.n_addrs (begin_idx + free_range_sz)
        → Inv limit orig (
            with_td
              (record w { buffers = store w.buffers k (record ab { free_idx = end_idx }) })
              i
              (record (w.tds i) {
                begin_retiree_idx = begin_idx;
                end_retiree_idx = end_idx;
                place = freeing round;
              }))
    claim-Inv begin_idx end_idx round e end_e = record {
      mine =
          update_each (Mine (stored b) w.freed) w.tds i t
            (λ k' e'.
              let same : k ≡ k' = let h = held in cc in
              (
                there b,
                ap (stored b) (sym same) ∙ stored_self b,
                subst (λ j. Owns w.freed j t (there b)) same
                    (record {
                      range = range;
                      below = omega arith;
                      within = omega arith;
                      kept = λ j f. elim (here-Sound.passed j f) [
                        | inl p ↦ inl (omega arith)
                        | inr p ↦ inr (omega arith)
                      ];
                      fits = fits;
                    }),
              ))
            (λ j n.
              stored-Mine b w.freed (w.tds j) (inv.mine j)
                (λ o h. record {
                  range = o.range;
                  below = omega (arith, o.below, o.within);
                  within = o.within;
                  kept = o.kept;
                  fits = o.fits;
                })
                (λ k' c n' o. o));
      apart = update-Apart w.tds i t inv.apart (λ j n k' e' f.
          let same : k ≡ k' = let h = held in cc in
          let other : Owns w.freed k (w.tds j) here =
            owner (w.tds j) (inv.mine j) (f ∙ ap some (sym same)) in
          inr (omega (arith, other.below)));
      sound =
          stored-Sound b w.freed
            (record {
              sized = here-Sound.sized;
              cells = here-Sound.cells;
              clean = here-Sound.clean;
              passed = λ j f. elim (here-Sound.passed j f) [
                | inl p ↦ elim (dec_lt j ab.n_addrs) [
                  | yes q ↦ inl (omega arith)
                  | no q ↦ inr (omega arith)
                ]
                | inr p ↦ inr p
              ];
              count = here-Sound.count;
            })
            (λ k' c n s. s);
      once = inv.once;
    }
      where
        range : (begin_idx ≤ end_idx) ⊎ (ab.n_addrs ≤ begin_idx)
        range = elim (dec_lt begin_idx ab.n_addrs) [
          | yes q ↦ inl (omega arith)
          | no q ↦ inr (omega arith)
        ]

        fits : (begin_idx < end_idx) ⊎ (ab.n_addrs ≤ begin_idx)
        fits = elim (dec_lt begin_idx ab.n_addrs) [
          | yes q ↦ inl (omega arith)
          | no q ↦ inr (omega arith)
        ]

        b : AddrBuffer
        b = record ab { free_idx = end_idx }

        t : Freer
        t = record (w.tds i) {
          begin_retiree_idx = begin_idx;
          end_retiree_idx = end_idx;
          place = freeing round;
        }

        owner :
            (u : Freer)
            → Mine (cells_of w.buffers) w.freed u
            → u.retiree_buffer ≡ some k
            → Owns w.freed k u here
        owner u m e =
            let (c, f, o) = m k e in
            let same : c ≡ here = let q = ap view at in cc in subst (Owns w.freed k u) same o
