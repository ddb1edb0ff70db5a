-- ===== src/Text/Ascii.antt =====
-- A case table that lowers the letters of ASCII alone: the laws of `CaseTable` can be met.
use ticketbutler_proxy.Common.{ℕ, ◌<◌, ◌≡◌, refl, arith}
use ticketbutler_proxy.Text.Defs.{is_space, ascii_lower, CaseTable}

pub ascii_lower_idem : (c : ℕ) → ascii_lower (ascii_lower c) ≡ ascii_lower c
unfolding ascii_lower
ascii_lower_idem c = ground arith

pub is_space-ascii_lower : (c : ℕ) → is_space (ascii_lower c) ≡ is_space c
unfolding ascii_lower is_space
is_space-ascii_lower c = ground arith

pub lower-eq-ascii_lower : (c : ℕ) → c < 128 → ascii_lower c ≡ ascii_lower c
lower-eq-ascii_lower c h = refl

instance abbrev pub ascii_case : CaseTable
ascii_case = record {
  lower_rune = ascii_lower;
  lower_rune_idem = ascii_lower_idem;
  is_space-lower_rune = is_space-ascii_lower;
  lower_rune_ascii = lower-eq-ascii_lower;
}
