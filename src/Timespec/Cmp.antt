-- ===== src/Timespec/Cmp.antt =====
-- src/timespec.c: the order that `timespec_cmp` decides.
use snapcastc.Base.{◌≡◌, ◌||◌, true, false, arith}
use snapcastc.Base.Int.{is_neg, is_pos}
use snapcastc.Timespec.{Timespec, timespec_cmp}

-- `a` is not after `b`.
abbrev pub NotAfter : Timespec → Timespec → Type 0
NotAfter a b = is_pos (timespec_cmp a b) ≡ false

pub NotAfter-refl : (a : Timespec) → NotAfter a a
unfolding timespec_cmp
NotAfter-refl a = ground arith

pub NotAfter-trans : (a b c : Timespec) → NotAfter a b → NotAfter b c → NotAfter a c
unfolding timespec_cmp
NotAfter-trans a b c h k = ground arith

pub is_neg-NotAfter : (a b : Timespec) → is_neg (timespec_cmp a b) ≡ true → NotAfter a b
unfolding timespec_cmp
is_neg-NotAfter a b h = ground arith

pub not_neg-NotAfter : (a b : Timespec) → is_neg (timespec_cmp a b) ≡ false → NotAfter b a
unfolding timespec_cmp
not_neg-NotAfter a b h = ground arith

pub is_pos-NotAfter : (a b : Timespec) → is_pos (timespec_cmp a b) ≡ true → NotAfter b a
unfolding timespec_cmp
is_pos-NotAfter a b h = ground arith

pub same_due :
    (a b : Timespec) → is_neg (timespec_cmp a b) || is_pos (timespec_cmp a b) ≡ false → a ≡ b
unfolding timespec_cmp
same_due a b h = ground arith

pub later_than :
    (a b now : Timespec)
    → is_pos (timespec_cmp a now) ≡ true
    → NotAfter a b
    → is_pos (timespec_cmp b now) ≡ true
unfolding timespec_cmp
later_than a b now h k = ground arith
