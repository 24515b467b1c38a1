-- ===== src/Libc/Ctype.antt =====
-- lib/libc/ctype: isdigit.c, isprint.c, isspace.c, isxdigit.c, tolower.c, toupper.c.
-- The argument is an `int` that is not negative; a test returns 0 or 1.
use slof.Prelude.{ℕ, ◌+◌, ◌-◌, ◌==◌, ltb, leb, Bool, ◌&&◌, ◌||◌, if◌then◌else◌}

abbrev in_range : ℕ → ℕ → ℕ → Bool
in_range lo hi ch = leb lo ch && leb ch hi

unfoldable pub isdigit : ℕ → Bool
isdigit ch =
    ch == b'0'
    || ch == b'1'
    || ch == b'2'
    || ch == b'3'
    || ch == b'4'
    || ch == b'5'
    || ch == b'6'
    || ch == b'7'
    || ch == b'8'
    || ch == b'9'

pub isprint : ℕ → Bool
isprint ch = leb 32 ch && ltb ch 127

-- ' ', '\f', '\n', '\r', '\t', '\v'
pub isspace : ℕ → Bool
isspace ch = ch == 32 || ch == 12 || ch == 10 || ch == 13 || ch == 9 || ch == 11

pub isxdigit : ℕ → Bool
isxdigit ch = in_range b'0' b'9' ch || in_range b'A' b'F' ch || in_range b'a' b'f' ch

unfoldable pub tolower : ℕ → ℕ
tolower c = if leb b'A' c && leb c b'Z' then c - b'A' + b'a' else c

unfoldable pub toupper : ℕ → ℕ
toupper cha = if leb b'a' cha && leb cha b'z' then cha - b'a' + b'A' else cha
