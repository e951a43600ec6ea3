-- ===== src/Desc/Prp/Agree.antt =====
-- The count of descriptors against the walk that emits them, over the whole slice.
use mxdriver.Common.{
  ℕ, zero, suc, ◌+◌, ◌-◌, ◌%◌, ◌^◌, ◌≤◌, ◌<◌, ◌≡◌, refl, ap, sym, subst, ◌∙◌, min, List, [], ◌∷◌,
  ◌++◌, Result, ok, err, arith, u64, ltb, if◌then◌else◌, nonzero, inl, inr, Bool-cases, true, false,
  ◌==◌, not, Bool, einval,
}
use mathlib.Core.List.{append-nil}
use mxdriver.Desc.{Scatter}
use mxdriver.Desc.Prp.{
  Cursor, prp_chunk_len_at, entry_descs, mx_prp_first_chunk_len, count_from, starts_aligned,
  first_cursor, min3,
}
use mxdriver.Desc.Prp.Bytes.{span, slice_bytes, AreMapped, times, chunks}
use mxdriver.Desc.Prp.Walk.{Covers, cursor_at}
use mxdriver.Desc.Prp.Entry.{chunk_len-Distance, descs, entry_last, entry_further}

-- The distance from the slice's start to the next boundary, in an entry of the mapping.
abbrev pub lead : Scatter → ℕ → ℕ → ℕ
lead sg intra d = prp_chunk_len_at (sg.dma_address + intra) d

-- The cursor that the walk starts from.
abbrev pub begins : Scatter → List Scatter → ℕ → ℕ → ℕ → Cursor
begins sg sgs intra size d =
    cursor_at (lead sg intra d) (sg.dma_address + intra) (sg.dma_len - intra) size sgs

entry_descs_lem :
    (sg : Scatter) (intra c d : ℕ)
    → sg.dma_address + intra < 2 ^ 64
    → entry_descs sg intra c d ≡ descs d (lead sg intra d) (sg.dma_len - intra) c
unfolding entry_descs mx_prp_first_chunk_len
entry_descs_lem sg intra c d b =
    let w : u64 (sg.dma_address + intra) ≡ sg.dma_address + intra = omega (arith, b) in rw w refl

pub first_cursor_lem :
    (sg : Scatter) (sgs : List Scatter) (intra size d : ℕ)
    → sg.dma_address + intra < 2 ^ 64
    → first_cursor (sg ∷ sgs) intra size d ≡ ok (begins sg sgs intra size d)
unfolding first_cursor mx_prp_first_chunk_len min3
first_cursor_lem sg sgs intra size d b =
    let w : u64 (sg.dma_address + intra) ≡ sg.dma_address + intra = omega (arith, b) in
    let l = lead sg intra d in
    let v = sg.dma_len - intra in
    let z : min (min (min l v) v) size ≡ min (min l v) size = omega arith in rw (w, z) refl

-- What a count of `n` says of a slice.
pub record Agrees (sg : Scatter) (sgs : List Scatter) (intra size d total n : ℕ) : Type 0 where
  pub more : ℕ
  pub counted : n ≡ u64 (total + more)
  pub few : more ≤ size
  pub covers :
      Covers d more
        (begins sg sgs intra size d)
        (lead sg intra d)
        (slice_bytes (sg ∷ sgs) intra size)

pub slice_none : (sgs : List Scatter) (intra : ℕ) → slice_bytes sgs intra 0 ≡ []
slice_none [] intra = refl
slice_none (sg ∷ sgs) intra =
    let z : min (sg.dma_len - intra) 0 ≡ 0 = omega arith in rw z (slice_none sgs 0)

aligned_lead : (a d : ℕ) → a % d ≡ 0 → prp_chunk_len_at a d ≡ d
unfolding prp_chunk_len_at
aligned_lead a d e = ground (arith, e)

begins_aligned :
    (sg : Scatter) (sgs : List Scatter) (size d : ℕ)
    → sg.dma_address % d ≡ 0
    → begins sg sgs 0 size d ≡ cursor_at d sg.dma_address sg.dma_len size sgs
begins_aligned sg sgs size d e =
    let a : sg.dma_address + 0 ≡ sg.dma_address = omega arith in
    let v : sg.dma_len - 0 ≡ sg.dma_len = omega arith in
    let l : prp_chunk_len_at sg.dma_address d ≡ d = aligned_lead sg.dma_address d e in
    rw (a, v, l) refl

full-le : (j d : ℕ) → 0 < d → j ≤ times j d
full-le zero d p = omega arith
full-le (suc j) d p = omega (arith, full-le j d p)

descs-le : (d len v c : ℕ) → 0 < d → 0 < len → 0 < v → 0 < c → descs d len v c ≤ c
descs-le d len v c p l q r = elim (Bool-cases (ltb (min (min len v) c) c)) [
  | inr e ↦ rw e (omega (arith, r))
  | inl e ↦
      let x = c - min (min len v) c in
      let h : min (min len v) c < c = ground arith in
      let k = chunks x d (omega (arith, h)) p in
      rw (e, k.rounded_up) (omega (arith, full-le k.full d p, k.adds_up, k.rest_positive, l, q, r))
]

-- The slice ends in the entry.
agree_last :
    (sg : Scatter) (sgs : List Scatter) (intra size d total n : ℕ)
    → 0 < d
    → 0 < size
    → sg.dma_address + sg.dma_len < 2 ^ 64
    → intra < sg.dma_len
    → size ≤ sg.dma_len - intra
    → n ≡ u64 (total + entry_descs sg intra size d)
    → Agrees sg sgs intra size d total n
agree_last sg sgs intra size d total n p q b i l e =
    let a = sg.dma_address + intra in
    let v = sg.dma_len - intra in
    let dist = chunk_len-Distance a d p in
    let w = entry_descs_lem sg intra size d (omega (arith, b, i)) in
    let m : min v size ≡ size = omega (arith, l) in
    record {
      more = descs d (lead sg intra d) v size;
      counted = e ∙ ap (λ x. u64 (total + x)) w;
      few = descs-le d (lead sg intra d) v size p dist.positive (omega (arith, q, l)) q;
      covers =
          subst
            (λ x.
              Covers d (descs d (lead sg intra d) v size) (begins sg sgs intra size d)
                (lead sg intra d) x)
            (sym (append-nil (span a size))
              ∙ ap (λ x. span a size ++ x)
                  (sym (slice_none sgs 0) ∙ ap (slice_bytes sgs 0) (omega (arith, m)))
              ∙ ap (λ x. span a x ++ slice_bytes sgs 0 (size - min v size)) (sym m))
            (entry_last d a (lead sg intra d) v size sgs p dist q l (omega (arith, b, i)));
    }

-- It goes on in the next one, and the count agrees from there on.
agree_further :
    (sg next : Scatter) (sgs : List Scatter) (intra size d total n : ℕ)
    → 0 < d
    → sg.dma_address + sg.dma_len < 2 ^ 64
    → intra < sg.dma_len
    → sg.dma_len - intra < size
    → (sg.dma_address + intra + (sg.dma_len - intra)) % d ≡ 0
    → next.dma_address % d ≡ 0
    → Agrees next sgs 0
        (size - (sg.dma_len - intra))
        d
        (u64 (total + entry_descs sg intra (sg.dma_len - intra) d))
        n
    → Agrees sg (next ∷ sgs) intra size d total n
agree_further sg next sgs intra size d total n p b i l e f k =
    let a = sg.dma_address + intra in
    let v = sg.dma_len - intra in
    let dist = chunk_len-Distance a d p in
    let first = descs d (lead sg intra d) v v in
    let w = entry_descs_lem sg intra v d (omega (arith, b, i)) in
    let m : min v size ≡ v = omega (arith, l) in
    let h =
      descs-le d (lead sg intra d) v v p dist.positive (omega (arith, i)) (omega (arith, i)) in
    let z : next.dma_address + 0 ≡ next.dma_address = omega arith in
    let c : Covers d k.more (cursor_at d next.dma_address next.dma_len (size - v) sgs) d
        (slice_bytes (next ∷ sgs) 0 (size - v)) =
      subst (λ x. Covers d k.more x d (slice_bytes (next ∷ sgs) 0 (size - v)))
        (begins_aligned next sgs (size - v) d f)
        (subst
          (λ x.
            Covers d k.more (begins next sgs 0 (size - v) d) x
              (slice_bytes (next ∷ sgs) 0 (size - v)))
          (ap (λ x. prp_chunk_len_at x d) z ∙ aligned_lead next.dma_address d f) k.covers) in
    record {
      more = first + k.more;
      counted = k.counted ∙ rw w (omega arith);
      few = omega (arith, h, k.few, l);
      covers =
          subst
            (λ x.
              Covers d (first + k.more) (begins sg (next ∷ sgs) intra size d) (lead sg intra d) x)
            (ap (λ x. span a x ++ slice_bytes (next ∷ sgs) 0 (size - x)) (sym m))
            (entry_further d a (lead sg intra d) v size k.more next sgs
              (slice_bytes (next ∷ sgs) 0 (size - v)) p dist (omega (arith, i)) l
              (omega (arith, b, i)) e f c);
    }

ok_injective : (n m : ℕ) → ok n ≡ ok m → n ≡ m
ok_injective n m e = cc

count_last :
    (sg : Scatter) (sgs : List Scatter) (intra size d total n : ℕ)
    → size ≤ sg.dma_len - intra
    → count_from (sg ∷ sgs) intra size d total ≡ ok n
    → n ≡ u64 (total + entry_descs sg intra size d)
unfolding count_from
count_last sg sgs intra size d total n l e =
    let m : min (sg.dma_len - intra) size ≡ size = omega (arith, l) in
    let z : (size - size == 0) ≡ true = ground arith in sym (ok_injective _ n (rw (m, z) at e))

further_tests :
    (a d : ℕ) (s : Bool) (rest : Result ℕ) (n : ℕ)
    → (if nonzero (a % d) then err einval else if not s then err einval else rest) ≡ ok n
    → (a % d ≡ 0) × (s ≡ true) × (rest ≡ ok n)
further_tests a d s rest n e = ground arith

count_further :
    (sg : Scatter) (sgs : List Scatter) (intra size d total n : ℕ)
    → sg.dma_address + sg.dma_len < 2 ^ 64
    → intra < sg.dma_len
    → sg.dma_len - intra < size
    → count_from (sg ∷ sgs) intra size d total ≡ ok n
    → ((sg.dma_address + intra + (sg.dma_len - intra)) % d ≡ 0)
      × (starts_aligned sgs d ≡ true)
      × (count_from sgs 0
            (size - (sg.dma_len - intra))
            d
            (u64 (total + entry_descs sg intra (sg.dma_len - intra) d))
          ≡ ok n)
unfolding count_from
count_further sg sgs intra size d total n b i l e =
    let v = sg.dma_len - intra in
    let m : min v size ≡ v = omega (arith, l) in
    let z : (size - v == 0) ≡ false = ground (arith, l) in
    let w : u64 (sg.dma_address + intra + v) ≡ sg.dma_address + intra + v = omega (arith, b, i) in
    further_tests (sg.dma_address + intra + v) d (starts_aligned sgs d)
      (count_from sgs 0 (size - v) d (u64 (total + entry_descs sg intra v d))) n (rw (m, z, w) at e)

pub agree :
    (sg : Scatter) (sgs : List Scatter) (intra size d total n : ℕ)
    → 0 < d
    → 0 < size
    → AreMapped (sg ∷ sgs)
    → intra < sg.dma_len
    → count_from (sg ∷ sgs) intra size d total ≡ ok n
    → Agrees sg sgs intra size d total n
unfolding starts_aligned
agree sg [] intra size d total n p q b i e = elim (Bool-cases (ltb (sg.dma_len - intra) size)) [
  | inr x ↦
      let l : size ≤ sg.dma_len - intra = ground arith in
      agree_last sg [] intra size d total n p q b.1 i l (count_last sg [] intra size d total n l e)
  | inl x ↦ absurd (cc (count_further sg [] intra size d total n b.1 i (ground arith) e).1)
]
agree sg (next ∷ sgs) intra size d total n p q b i e =
    elim (Bool-cases (ltb (sg.dma_len - intra) size)) [
      | inr x ↦
          let l : size ≤ sg.dma_len - intra = ground arith in
          agree_last sg (next ∷ sgs) intra size d total n p q b.1 i l
            (count_last sg (next ∷ sgs) intra size d total n l e)
      | inl x ↦
          let l : sg.dma_len - intra < size = ground arith in
          let (f, s, r) = count_further sg (next ∷ sgs) intra size d total n b.1 i l e in
          let g : next.dma_address % d ≡ 0 = ground arith in
          agree_further sg next sgs intra size d total n p b.1 i l f g (
            agree next sgs 0 (size - (sg.dma_len - intra)) d
              (u64 (total + entry_descs sg intra (sg.dma_len - intra) d)) n p (omega (arith, l)) b.2
              b.2.0 r)
    ]
