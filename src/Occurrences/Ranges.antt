-- ===== src/Occurrences/Ranges.antt =====
-- What the tests of utils.go say of ranges whose start is not after their end.
use scip_lsp.Common.{true, false, ◌≡◌, ◌⊎◌, arith}
use scip_lsp.Common.Int.{◌≤ℤ◌, ◌<ℤ◌}
use scip_lsp.Occurrences.{ScipPosition, ScipRange, is_before, range_matches}

-- the order of positions in a document
abbrev pub Precedes : ScipPosition → ScipPosition → Type 0
Precedes a b = (a.line <ℤ b.line) ⊎ ((a.line ≡ b.line) × (a.character ≤ℤ b.character))

pub is_before_trans :
    (a b p : ScipPosition) → Precedes a b → is_before b p ≡ true → is_before a p ≡ true
is_before_trans a b p h k = ground arith

-- a range that matches a position does not end before it
pub matches-not-before :
    (r : ScipRange) (p : ScipPosition)
    → Precedes r.start r.end
    → range_matches r p ≡ true
    → is_before r.end p ≡ false
matches-not-before r p h k = ground arith

-- a position that matches is not before the start
start-Precedes :
    (r : ScipRange) (p : ScipPosition)
    → Precedes r.start r.end
    → range_matches r p ≡ true
    → Precedes r.start p
start-Precedes r p h k = ground arith

pub Precedes-trans : (a b c : ScipPosition) → Precedes a b → Precedes b c → Precedes a c
Precedes-trans a b c h k = ground arith

line-of_not_before : (e p : ScipPosition) → Precedes e p → is_before e p ≡ false → e.line ≡ p.line
line-of_not_before e p h n = ground arith

character-of_not_before :
    (e p : ScipPosition) → Precedes e p → is_before e p ≡ false → e.character ≡ p.character
character-of_not_before e p h n = ground arith

matches-end :
    (r : ScipRange) (p : ScipPosition)
    → Precedes r.start r.end
    → r.end.line ≡ p.line
    → r.end.character ≡ p.character
    → range_matches r p ≡ true
matches-end r p h l c = ground arith

-- a range that ends where one that matches starts, or earlier, ends before the position or matches
pub earlier-matches :
    (a b : ScipRange) (p : ScipPosition)
    → Precedes a.start a.end
    → Precedes b.start b.end
    → Precedes a.end b.start
    → range_matches b p ≡ true
    → is_before a.end p ≡ false
    → range_matches a p ≡ true
earlier-matches a b p ha hb hab k n =
    let le = Precedes-trans a.end b.start p hab (start-Precedes b p hb k) in
    matches-end a p ha (line-of_not_before a.end p le n) (character-of_not_before a.end p le n)

pub Precedes-refl : (a : ScipPosition) → Precedes a a
Precedes-refl a = ground arith
