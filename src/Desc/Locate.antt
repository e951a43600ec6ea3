-- ===== src/Desc/Locate.antt =====
-- mx_sg_locate against the bytes of a mapping.
use mxdriver.Common.{
  ℕ, ◌+◌, ◌^◌, ◌≤◌, ◌<◌, ◌≡◌, refl, List, [], ◌∷◌, Result, ok, err, einval, arith, u64, ltb,
  Bool-cases, inl, inr,
}
use mxdriver.Desc.{Scatter, locate_from, mx_sg_locate}

-- The bytes of a mapping.
abbrev pub mapped : List Scatter → ℕ
mapped [] = 0
mapped (sg ∷ sgs) = sg.dma_len + mapped sgs

-- From entries that start at byte `acc`: the offset lies in the first entry of what is found, which
-- lies `byte_offset - intra` bytes into the mapping; or the mapping ends before it.
abbrev pub Located : ℕ → List Scatter → ℕ → Result (List Scatter × ℕ) → Type 0
Located acc sgs byte_offset (ok ([], intra)) = ⊥
Located acc sgs byte_offset (ok (sg ∷ rest, intra)) =
    (intra < sg.dma_len) × (byte_offset + mapped (sg ∷ rest) ≡ acc + mapped sgs + intra)
Located acc sgs byte_offset (err e) = (e ≡ einval) × (acc + mapped sgs ≤ byte_offset)

shift :
    (acc : ℕ) (sg : Scatter) (sgs : List Scatter) (byte_offset : ℕ) (r : Result (List Scatter × ℕ))
    → Located (acc + sg.dma_len) sgs byte_offset r
    → Located acc (sg ∷ sgs) byte_offset r
shift acc sg sgs byte_offset (ok ([], intra)) l = l
shift acc sg sgs byte_offset (ok (x ∷ rest, intra)) l = (l.0, omega (arith, l.1))
shift acc sg sgs byte_offset (err e) l = (l.0, omega (arith, l.1))

locate_from-Located :
    (acc : ℕ) (sgs : List Scatter) (byte_offset : ℕ)
    → acc + mapped sgs < 2 ^ 64
    → acc ≤ byte_offset
    → Located acc sgs byte_offset (locate_from acc sgs byte_offset)
unfolding locate_from
locate_from-Located acc [] byte_offset b a = (refl, omega arith)
locate_from-Located acc (sg ∷ sgs) byte_offset b a =
    let w : u64 (acc + sg.dma_len) ≡ acc + sg.dma_len = omega arith in
    rw w (elim (Bool-cases (ltb byte_offset (acc + sg.dma_len))) [
      | inl e ↦ rw e (ground arith, ground arith)
      | inr e ↦ rw e (
          shift acc sg sgs byte_offset _
            (locate_from-Located (acc + sg.dma_len) sgs byte_offset (omega arith) (ground arith)))
    ])

-- On a mapping of fewer than 2^64 bytes, mx_sg_locate either finds an entry of it and an offset
-- inside that entry that together are the byte asked for, or fails with -EINVAL and the mapping
-- ends at or before that byte.
pub mx_sg_locate-Located :
    (sgs : List Scatter) (byte_offset : ℕ)
    → mapped sgs < 2 ^ 64
    → Located 0 sgs byte_offset (mx_sg_locate sgs byte_offset)
unfolding mx_sg_locate
mx_sg_locate-Located sgs byte_offset b =
    locate_from-Located 0 sgs byte_offset (omega (arith, b)) (omega arith)
