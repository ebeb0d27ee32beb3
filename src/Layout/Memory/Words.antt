-- ===== src/Layout/Memory/Words.antt =====
-- Numbers of several 16-bit slots in a memory that is a function of the slot's index.
use capnproto_test.Base.{
  ℕ, zero, suc, ◌+◌, ◌*◌, ◌/◌, ◌%◌, ◌≤◌, ◌<◌, ◌≡◌, refl, ◌⊎◌, arith, ◌==◌, if◌then◌else◌,
}

abbrev pub Slots : Type 0
Slots = ℕ → ℕ

abbrev put : Slots → ℕ → ℕ → Slots
put f i v j = if j == i then v else f j

-- `k` slots from slot `i` on, the lowest first.
unfoldable pub read : ℕ → ℕ → Slots → ℕ
read zero i f = 0
read (suc k) i f = f i % 65536 + 65536 * read k (suc i) f

unfoldable pub write : ℕ → ℕ → ℕ → Slots → Slots
write zero i v f = f
write (suc k) i v f = put (write k (suc i) (v / 65536) f) i (v % 65536)

-- How many numbers `k` slots can hold.
abbrev pub capacity : ℕ → ℕ
capacity zero = 1
capacity (suc k) = 65536 * capacity k

pub read-lt : (k i : ℕ) (f : Slots) → read k i f < capacity k
unfolding read
read-lt zero i f = omega arith
read-lt (suc k) i f = omega (arith, read-lt k (suc i) f)

pub read-eq :
    (k i : ℕ) (f g : Slots) → ((x : ℕ) → i ≤ x → x < i + k → f x ≡ g x) → read k i f ≡ read k i g
unfolding read
read-eq zero i f g h = refl
read-eq (suc k) i f g h =
    let tail : read k (suc i) f ≡ read k (suc i) g =
      read-eq k (suc i) f g (λ x lo hi. h x (omega arith) (omega arith)) in
    let first : f i ≡ g i = h i (omega arith) (omega arith) in omega arith

pub write_outside : (m j v x : ℕ) (f : Slots) → (x < j) ⊎ (j + m ≤ x) → write m j v f x ≡ f x
unfolding write
write_outside zero j v x f h = refl
write_outside (suc m) j v x f h = ground (arith, write_outside m (suc j) (v / 65536) x f)

pub read-write : (k i v : ℕ) (f : Slots) → v < capacity k → read k i (write k i v f) ≡ v
unfolding read write
read-write zero i v f h = omega arith
read-write (suc k) i v f h =
    let rest = write k (suc i) (v / 65536) f in
    let same : read k (suc i) (put rest i (v % 65536)) ≡ read k (suc i) rest =
      read-eq k (suc i) (put rest i (v % 65536)) rest (λ x lo hi. ground arith) in
    let tail : read k (suc i) rest ≡ v / 65536 = read-write k (suc i) (v / 65536) f (omega arith) in
    ground arith

pub read-write_apart :
    (k i m j v : ℕ) (f : Slots) → (i + k ≤ j) ⊎ (j + m ≤ i) → read k i (write m j v f) ≡ read k i f
read-write_apart k i m j v f h =
    read-eq k i (write m j v f) f (λ x lo hi. write_outside m j v x f (ground arith))

pub read-zeros : (k i : ℕ) → read k i (λ _. 0) ≡ 0
unfolding read
read-zeros zero i = refl
read-zeros (suc k) i = omega (arith, read-zeros k (suc i))
