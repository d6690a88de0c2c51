-- ===== src/Scanner/Pool.antt =====
-- src/scip-lib/scanner/bufferpool.go: buffers in buckets of doubling sizes. Each bucket is a
-- `sync.Pool`, which may give back any buffer that it holds or make a new one: the choice is an
-- argument. A slice beyond a buffer's capacity panics, `none` here; so does a negative size.
mod Examples
use scip_lsp.Common.Int.{ℤ, pos, negsuc}
use scip_lsp.Common.{
  ℕ, zero, suc, ◌+◌, ◌-◌, ◌*◌, ◌^◌, ◌≤◌, ◌<◌, ◌≡◌, refl, Option, none, some, List, [], ◌∷◌, Bool,
  true, false, arith, leb, ◌==◌, number_key, if◌then◌else◌, Bool-cases, inl, inr,
}

pub record Buffer : Type 0 where
  pub len : ℕ
  pub cap : ℕ

-- `make([]byte, n)`
abbrev pub make : ℕ → Buffer
make n = record { len = n; cap = n }

-- an entry of `sizes` with the buffers that its `sync.Pool` holds
pub record Bucket : Type 0 where
  pub size : ℕ
  pub free : List Buffer

abbrev pub BufferPool : Type 0
BufferPool = List Bucket

-- the buckets from the `i`-th on, `count` of them: `startSize << i`
unfoldable pub new_buckets : ℕ → ℕ → ℕ → BufferPool
new_buckets start i zero = []
new_buckets start i (suc count) =
    record { size = start * 2 ^ i; free = [] } ∷ new_buckets start (i + 1) count

unfoldable pub new_buffer_pool : ℕ → ℕ → BufferPool
unfolding new_buckets
new_buffer_pool start count = new_buckets start 0 count

-- `pools[i].Get()`: an old buffer if `reuse` and there is one, else a new one
unfoldable pub take_buffer : Bool → ℕ → List Buffer → Buffer × List Buffer
take_buffer true size (buf ∷ free) = (buf, free)
take_buffer true size [] = (make size, [])
take_buffer false size free = (make size, free)

-- `Get()[:size]` of the first bucket that is large enough, and a new buffer if none is
unfoldable pub get_slice : Bool → ℕ → BufferPool → Option (Buffer × BufferPool)
get_slice reuse size [] = some (make size, [])
get_slice reuse size (b ∷ bs) =
    let (buf, free) = take_buffer reuse b.size b.free in
    let here : Option (Buffer × BufferPool) =
      if leb size buf.cap
      then some (record { len = size; cap = buf.cap }, record b { free = free } ∷ bs)
      else none in
    let later : Option (Buffer × BufferPool) = elim (get_slice reuse size bs) [
      | none ↦ none
      | some (found, bs') ↦ some (found, b ∷ bs')
    ] in
    if leb size b.size then here else later

-- `Get`, of an `int`: a slice or a `make` of a negative length panics
unfoldable pub get : Bool → ℤ → BufferPool → Option (Buffer × BufferPool)
unfolding get_slice
get reuse (pos size) bs = get_slice reuse size bs
get reuse (negsuc n) bs = none

-- a buffer goes back, `buf[:cap(buf)]`, to the bucket of its capacity, if there is one
unfoldable pub put : Buffer → BufferPool → BufferPool
put buf [] = []
put buf (b ∷ bs) =
    if buf.cap == b.size then record b { free = make buf.cap ∷ b.free } ∷ bs else b ∷ put buf bs

-- every free buffer has the size of its bucket
abbrev pub AllOf : ℕ → List Buffer → Type 0
AllOf size [] = Unit
AllOf size (buf ∷ free) = (buf.len ≡ size) × (buf.cap ≡ size) × AllOf size free

abbrev pub IsPool : BufferPool → Type 0
IsPool [] = Unit
IsPool (b ∷ bs) = AllOf b.size b.free × IsPool bs

-- what a `Get` of `size` bytes owes its caller
abbrev pub Gives : ℕ → Option (Buffer × BufferPool) → Type 0
Gives size none = ⊥
Gives size (some (buf, bs)) = (buf.len ≡ size) × (size ≤ buf.cap) × IsPool bs

take_buffer-AllOf :
    (reuse : Bool) (size : ℕ) (free : List Buffer)
    → AllOf size free
    → ((take_buffer reuse size free).0.cap ≡ size) × AllOf size (take_buffer reuse size free).1
unfolding take_buffer
take_buffer-AllOf true size (buf ∷ free) v = (v.1, v.2)
take_buffer-AllOf true size [] v = (refl, tt)
take_buffer-AllOf false size free v = (refl, v)

-- the later buckets give the buffer
later-Gives :
    (size : ℕ) (b : Bucket) (found : Option (Buffer × BufferPool))
    → AllOf b.size b.free
    → Gives size found
    → Gives size (elim found [ none ↦ none | some (buf, bs') ↦ some (buf, b ∷ bs') ])
later-Gives size b none v g = g
later-Gives size b (some (buf, bs')) v g = (g.0, g.1, (v, g.2))

pub get_slice-Gives :
    (reuse : Bool) (size : ℕ) (bs : BufferPool) → IsPool bs → Gives size (get_slice reuse size bs)
unfolding get_slice
get_slice-Gives reuse size [] v = (refl, omega arith, tt)
get_slice-Gives reuse size (b ∷ bs) v =
    let t = take_buffer-AllOf reuse b.size b.free v.0 in
    let later =
      later-Gives size b (get_slice reuse size bs) v.0 (get_slice-Gives reuse size bs v.1) in
    elim (Bool-cases (leb size b.size)) [
      | inl fits ↦
          let in_cap : leb size (take_buffer reuse b.size b.free).0.cap ≡ true =
            ground (arith, t) in
          rw (fits, in_cap) (refl, ground (arith, t), (t.1, v.1))
      | inr small ↦ rw small later
    ]

pub put-IsPool : (buf : Buffer) (bs : BufferPool) → IsPool bs → IsPool (put buf bs)
unfolding put
put-IsPool buf [] v = tt
put-IsPool buf (b ∷ bs) v = ground (arith, put-IsPool buf bs v.1)

-- what callers do with a pool: any sequence of `Get`s and `Put`s, of buffers of any origin
pub data Uses (bs : BufferPool) : BufferPool → Type 0 where
  no_use : Uses bs bs
  got :
      {bs' bs'' : BufferPool} (reuse : Bool) (size : ℤ) (buf : Buffer)
      → Uses bs bs'
      → get reuse size bs' ≡ some (buf, bs'')
      → Uses bs bs''
  put_back : {bs' : BufferPool} (buf : Buffer) → Uses bs bs' → Uses bs (put buf bs')

-- what a `Get` of any `int` owes its caller, and a panic for one that is negative
abbrev pub GivesOrPanics : ℤ → Option (Buffer × BufferPool) → Type 0
GivesOrPanics (pos size) r = Gives size r
GivesOrPanics (negsuc n) r = r ≡ none
