-- ===== src/Lease/World/Sound.antt =====
-- What it means that the whole device is sound: the counters are those of the open descriptors, and
-- whatever a call of mx_lease_transition kept can still be undone.
use mxdriver.Common.{
  ℕ, zero, suc, ◌≡◌, refl, ap, subst, some, List, [], ◌∷◌, get_elem?, set, Option-cases, inl, inr,
}
use mathlib.Core.Option
use mathlib.Core.Option.{some-injective}
use mxdriver.Lease.Sm.{Holder}
use mxdriver.Lease.Sm.Tally.{Tally, tally, others, tally-others, tally-set}
use mxdriver.Lease.Sm.Account.{Account, IsProper}
use mxdriver.Lease.Device.{DeviceLease, FileCtx}
use mxdriver.Lease.Acquire.Laws.{IsAnchored, IsSound}
use mxdriver.Lease.Transition.Laws.{Undoable}
use mxdriver.Lease.World.{World, at}

abbrev pub All {ℓ κ} : {A : Type ℓ} → (A → Type κ) → List A → Type κ
All P [] = Unit
All P (x ∷ xs) = P x × All P xs

abbrev pub holders : List FileCtx → List Holder
holders [] = []
holders (c ∷ cs) = c.lease ∷ holders cs

pub record IsSoundWorld (w : World) : Type 0 where
  pub proper : All IsProper (holders w.ctxs)
  pub counted : Account w.lease.state (tally (holders w.ctxs))
  pub anchored : IsAnchored w.lease
  pub undoable : All Undoable w.pending

pub All-get_elem? {ℓ κ} :
    {A : Type ℓ} (P : A → Type κ) (xs : List A) (i : ℕ) (x : A)
    → All P xs
    → get_elem? xs i ≡ some x
    → P x
All-get_elem? P [] i x a e = absurd (cc e)
All-get_elem? P (y ∷ xs) zero x a e = subst P (some-injective _ _ e) a.0
All-get_elem? P (y ∷ xs) (suc i) x a e = All-get_elem? P xs i x a.1 e

All-set {ℓ κ} :
    {A : Type ℓ} (P : A → Type κ) (xs : List A) (i : ℕ) (x : A)
    → All P xs
    → P x
    → All P (set xs i x)
All-set P [] i x a p = a
All-set P (y ∷ xs) zero x a p = (p, a.1)
All-set P (y ∷ xs) (suc i) x a p = (a.0, All-set P xs i x a.1 p)

pub get_elem?-holders :
    (cs : List FileCtx) (i : ℕ) (c : FileCtx)
    → get_elem? cs i ≡ some c
    → get_elem? (holders cs) i ≡ some c.lease
get_elem?-holders [] i c e = absurd (cc e)
get_elem?-holders (d ∷ cs) zero c e = ap (λ o. Option.map (λ x. x.lease) o) e
get_elem?-holders (d ∷ cs) (suc i) c e = get_elem?-holders cs i c e

holders-set :
    (cs : List FileCtx) (i : ℕ) (c : FileCtx) → holders (set cs i c) ≡ set (holders cs) i c.lease
holders-set [] i c = refl
holders-set (d ∷ cs) zero c = refl
holders-set (d ∷ cs) (suc i) c = ap (◌∷◌ d.lease) (holders-set cs i c)

-- The device as the section on descriptor `i` sees it.
pub IsSound-at :
    (w : World) (i : ℕ) (c : FileCtx)
    → IsSoundWorld w
    → get_elem? w.ctxs i ≡ some c
    → IsSound w.lease c (others (holders w.ctxs) i)
IsSound-at w i c s e =
    let h = get_elem?-holders w.ctxs i c e in
    record {
      keeps = record {
        stays_proper = All-get_elem? IsProper (holders w.ctxs) i c.lease s.proper h;
        stays_counted = rw (tally-others (holders w.ctxs) i c.lease h) at s.counted;
      };
      anchored = s.anchored;
    }

-- A section that keeps the lease sound for its descriptor keeps it sound for all.
pub at-IsSoundWorld :
    (w : World) (i : ℕ) (f : DeviceLease → FileCtx → DeviceLease × FileCtx)
    → ((lease : DeviceLease) (ctx : FileCtx) (r : Tally)
        → IsSound lease ctx r
        → IsSound (f lease ctx).0 (f lease ctx).1 r)
    → IsSoundWorld w
    → IsSoundWorld (at w i f)
unfolding at
at-IsSoundWorld w i f k s = elim (Option-cases (get_elem? w.ctxs i)) [
  | inl e ↦ rw (e, at) s
  | inr (c, e) ↦
      let q = k w.lease c (others (holders w.ctxs) i) (IsSound-at w i c s e) in
      rw (e, at)
        (record {
          proper =
              rw (holders-set w.ctxs i (f w.lease c).1)
                (All-set IsProper (holders w.ctxs) i _ s.proper q.keeps.stays_proper);
          counted =
              rw
                (
                  holders-set w.ctxs i (f w.lease c).1,
                  tally-set (holders w.ctxs) i c.lease (f w.lease c).1.lease
                      (get_elem?-holders w.ctxs i c e),
                )
                q.keeps.stays_counted;
          anchored = q.anchored;
          undoable = s.undoable;
        })
]
