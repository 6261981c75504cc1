-- ===== src/Checksum/Laws.antt =====
-- lightway-core/src/utils.rs: an updated checksum against the sum of the words that it covers.
use lightway.Base.{ℕ, ◌+◌, ◌%◌, ◌^◌, ◌<◌, ◌≡◌, refl, List, [], ◌∷◌, ◌++◌, map, All, arith}
use lightway.Checksum.{
  WordUpdate, ChecksumUpdate, overflowing_sub, sub, complement, update_word, update,
}

unfoldable pub total : List ℕ → ℕ
total [] = 0
total (w ∷ ws) = w + total ws

-- The words, their checksum among them, add up to zero in one's complement arithmetic.
unfoldable pub Verifies : List ℕ → ℕ → Type 0
Verifies words checksum = (checksum + total words) % 65535 ≡ 0

unfoldable pub IsWordUpdate : WordUpdate → Type 0
IsWordUpdate u = (u.old_word < 2 ^ 16) × (u.new_word < 2 ^ 16)

total-append : (xs ys : List ℕ) → total (xs ++ ys) ≡ total xs + total ys
unfolding total
total-append [] ys = omega arith
total-append (x ∷ xs) ys = omega (arith, total-append xs ys)

-- A step gives a word, and moves the checksum by what left and what came in.
update_word-moves :
    (c o n : ℕ)
    → c < 2 ^ 16
    → o < 2 ^ 16
    → n < 2 ^ 16
    → (update_word c o n < 2 ^ 16) × ((update_word c o n + n) % 65535 ≡ (c + o) % 65535)
unfolding update_word sub overflowing_sub complement
update_word-moves c o n hc ho hn = ground arith

update-moves :
    (c : ℕ) (us : ChecksumUpdate)
    → c < 2 ^ 16
    → All IsWordUpdate us
    → (update c us < 2 ^ 16)
      × ((update c us + total (map (λ u. u.new_word) us)) % 65535
          ≡ (c + total (map (λ u. u.old_word) us)) % 65535)
unfolding update total IsWordUpdate
update-moves c [] hc h = (hc, refl)
update-moves c (u ∷ us) hc h =
    let (c_lt, moved) = update_word-moves c u.old_word u.new_word hc h.0.0 h.0.1 in
    let (lt, rest) = update-moves (update_word c u.old_word u.new_word) us c_lt h.1 in
    (lt, omega arith)

total-around : (xs ys zs : List ℕ) → total (xs ++ ys ++ zs) ≡ total xs + total ys + total zs
total-around xs ys zs = omega (arith, total-append (xs ++ ys) zs, total-append xs ys)

-- Where a checksum of 16 bits fits the words of a packet, and some of those words are replaced, the
-- checksum updated by the replacements has 16 bits and fits the new words.
pub update-Verifies :
    (checksum : ℕ) (us : ChecksumUpdate) (before after : List ℕ)
    → checksum < 2 ^ 16
    → All IsWordUpdate us
    → Verifies (before ++ map (λ u. u.old_word) us ++ after) checksum
    → (update checksum us < 2 ^ 16)
      × Verifies (before ++ map (λ u. u.new_word) us ++ after) (update checksum us)
unfolding Verifies
update-Verifies checksum us before after hc h fits =
    let (lt, moved) = update-moves checksum us hc h in
    let was = total-around before (map (λ u. u.old_word) us) after in
    let is = total-around before (map (λ u. u.new_word) us) after in (lt, omega arith)
