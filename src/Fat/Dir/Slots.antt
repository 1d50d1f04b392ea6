-- ===== src/Fat/Dir/Slots.antt =====
-- The scan of a directory, slot by slot.
use vyper.Prelude.{
  ℕ, suc, ◌+◌, ◌*◌, ◌/◌, ◌≡◌, refl, ap, sym, ◌∙◌, Option, none, some, List, [], ◌∷◌, ◌++◌, Bytes,
  length, take, drop, arith, length-append, take_append, drop_append,
}
use mathlib.Core.List.{append_assoc}
use vyper.Fat.Long.{LfnEntry}
use vyper.Fat.Dir.{FatDirEntry, round, scan, read_entries}

abbrev pub AllSlots : List Bytes → Type 0
AllSlots [] = Unit
AllSlots (s ∷ ss) = (length s ≡ 32) × AllSlots ss

abbrev pub flat : List Bytes → Bytes
flat [] = []
flat (s ∷ ss) = s ++ flat ss

-- `scan` of the slots from offset `i` on.
unfoldable pub scan_slots : List Bytes → ℕ → List LfnEntry → ℕ → List FatDirEntry
scan_slots [] i lfn_parts start = []
scan_slots (slot ∷ slots) i lfn_parts start = elim (round slot lfn_parts start i) [
  | none ↦ []
  | some (pushed, lfn_parts', start') ↦ pushed ++ scan_slots slots (i + 32) lfn_parts' start'
]

pub length-flat : (slots : List Bytes) → AllSlots slots → length (flat slots) ≡ length slots * 32
length-flat [] h = omega arith
length-flat (s ∷ ss) h = omega (arith, length-append s (flat ss), length-flat ss h.1, h.0)

scan-slots_from :
    (slots : List Bytes) (i : ℕ) (lfn_parts : List LfnEntry) (start : ℕ) (before : Bytes)
    → AllSlots slots
    → length before ≡ i
    → scan (length slots) i lfn_parts start (before ++ flat slots)
      ≡ scan_slots slots i lfn_parts start
unfolding scan scan_slots
scan-slots_from [] i lfn_parts start before h at = refl
scan-slots_from (slot ∷ slots) i lfn_parts start before (size, h) at =
    let all = before ++ (slot ++ flat slots) in
    let here : take 32 (drop i all) ≡ slot =
      ap (λ k. take 32 (drop k all)) (sym at)
      ∙ (ap (take 32) (drop_append before (slot ++ flat slots))
          ∙ (ap (λ k. take k (slot ++ flat slots)) (sym size) ∙ take_append slot (flat slots))) in
    let regroup : all ≡ (before ++ slot) ++ flat slots =
      sym (append_assoc before slot (flat slots)) in
    go (round slot lfn_parts start i) (ap (λ s. round s lfn_parts start i) here) refl
      (λ lfn' start'.
        ap (scan (length slots) (i + 32) lfn' start') regroup
        ∙ scan-slots_from slots (i + 32) lfn' start' (before ++ slot) h
            (omega (arith, length-append before slot)))
  where
    go :
        (r : Option (List FatDirEntry × List LfnEntry × ℕ))
        → round (take 32 (drop i (before ++ (slot ++ flat slots)))) lfn_parts start i
          ≡ round slot lfn_parts start i
        → round slot lfn_parts start i ≡ r
        → ((lfn' : List LfnEntry) (start' : ℕ)
            → scan (length slots) (i + 32) lfn' start' (before ++ (slot ++ flat slots))
              ≡ scan_slots slots (i + 32) lfn' start')
        → scan (suc (length slots)) i lfn_parts start (before ++ (slot ++ flat slots))
          ≡ scan_slots (slot ∷ slots) i lfn_parts start
    go none e q rest = rw (e, scan, scan_slots, q) refl
    go (some (pushed, lfn', start')) e q rest =
        rw (e, scan, scan_slots, q) (ap (◌++◌ pushed) (rest lfn' start'))

pub read_entries-flat :
    (slots : List Bytes) → AllSlots slots → read_entries (flat slots) ≡ scan_slots slots 0 [] 0
unfolding read_entries
read_entries-flat slots h =
    let count : length (flat slots) / 32 ≡ length slots = omega (arith, length-flat slots h) in
    ap (λ n. scan n 0 [] 0 (flat slots)) count ∙ scan-slots_from slots 0 [] 0 [] h refl
