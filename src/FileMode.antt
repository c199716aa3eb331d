-- ===== src/FileMode.antt =====
-- The mode bits of sys/stat.h that the file programs under src/bin use. Each of the constants S_I*
-- stands for one bit, so that a mode is the set of its bits, `|` the union and `& ~` the difference.
use mkrn.Prelude.{ℕ, ◌/◌, ◌%◌, ◌==◌, ◌≡◌, ◌&&◌, not, Bool, true, false, arith}

pub data Who : Type 0 where
  user group other : Who

-- S_IRUSR and so on are `read user`; S_ISVTX is `svtx`.
pub data Bit : Type 0 where
  read write exec : Who → Bit
  suid sgid svtx : Bit

abbrev pub Mode : Type 0
Mode = Bit → Bool

abbrev pub no_bits : Mode
no_bits b = false

-- S_IRWXU | S_IRWXG | S_IRWXO
abbrev pub all_access : Mode
all_access (read w) = true
all_access (write w) = true
all_access (exec w) = true
all_access suid = false
all_access sgid = false
all_access svtx = false

-- The octal digits of a mode: POSIX gives the bits their places in this notation.
abbrev odd : ℕ → Bool
odd n = n % 2 == 1

abbrev triple : ℕ → Who → ℕ
triple v user = v / 64
triple v group = v / 8
triple v other = v

pub mode_of : ℕ → Mode
mode_of v (read w) = odd (triple v w / 4)
mode_of v (write w) = odd (triple v w / 2)
mode_of v (exec w) = odd (triple v w)
mode_of v suid = odd (v / 2048)
mode_of v sgid = odd (v / 1024)
mode_of v svtx = odd (v / 512)

abbrev iff : Bool → Bool → Bool
iff true b = b
iff false b = not b

abbrev all_who : (Who → Bool) → Bool
all_who p = p user && p group && p other

pub same_mode : Mode → Mode → Bool
same_mode m n =
    all_who (λ w. iff (m (read w)) (n (read w)))
    && all_who (λ w. iff (m (write w)) (n (write w)))
    && all_who (λ w. iff (m (exec w)) (n (exec w)))
    && iff (m suid) (n suid)
    && iff (m sgid) (n sgid)
    && iff (m svtx) (n svtx)

iff_sound : (a b : Bool) → iff a b ≡ true → a ≡ b
iff_sound true b h = ground arith
iff_sound false b h = ground arith

pub same_mode_sound : (m n : Mode) (b : Bit) → same_mode m n ≡ true → m b ≡ n b
unfolding same_mode
same_mode_sound m n (read user) h = ground arith
same_mode_sound m n (read group) h = ground arith
same_mode_sound m n (read other) h = ground arith
same_mode_sound m n (write user) h = ground arith
same_mode_sound m n (write group) h = ground arith
same_mode_sound m n (write other) h = ground arith
same_mode_sound m n (exec user) h = ground arith
same_mode_sound m n (exec group) h = ground arith
same_mode_sound m n (exec other) h = ground arith
same_mode_sound m n suid h = ground arith
same_mode_sound m n sgid h = ground arith
same_mode_sound m n svtx h = ground arith

-- What stat() reports of a file, as far as the programs look at it.
pub data Kind : Type 0 where
  regular directory symlink block char fifo socket : Kind

pub is_directory : Kind → Bool
is_directory directory = true
is_directory _ = false
