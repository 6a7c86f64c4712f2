-- ===== src/Contracts/Base.antt =====
-- The enumerations of services/api/app/contracts.py, and the constraints on text that its fields
-- share.
use Prim.Native.Char.{code}
use event_alpha.Prelude.{
  ℕ, String, Bool, true, List, [], ◌∷◌, Option, none, some, ◌&&◌, ◌||◌, leb, ◌==◌, length,
}

-- A UUID is its 128-bit value: the canonical texts are ordered as the values are.
abbrev pub Uuid : Type 0
Uuid = ℕ

pub data Action : Type 0 where
  strong_buy buy hold sell strong_sell avoid : Action

pub data Direction : Type 0 where
  bullish bearish neutral uncertain : Direction

pub data ProviderStatus : Type 0 where
  healthy degraded unavailable : ProviderStatus

pub data StoragePolicy : Type 0 where
  metadata_and_derived_only licensed_raw_archive : StoragePolicy

-- The code points of a text.
abbrev pub codes : String → List ℕ
codes (String.◌∷◌ first rest) = code first ∷ codes rest
codes String.[] = []

abbrev pub char_count : String → ℕ
char_count s = length (codes s)

-- Field(min_length=lo, max_length=hi)
unfoldable pub length_between : ℕ → ℕ → String → Bool
length_between lo hi s = leb lo (char_count s) && leb (char_count s) hi

-- Field(default=None, max_length=hi)
unfoldable pub optional_length : ℕ → Option String → Bool
optional_length hi none = true
optional_length hi (some s) = leb (char_count s) hi

unfoldable pub all_symbol_chars : List ℕ → Bool
all_symbol_chars [] = true
all_symbol_chars (c ∷ cs) = (leb b'A' c && leb c b'Z' || c == b'.') && all_symbol_chars cs

-- Field(pattern=r"^[A-Z.]{1,12}$")
unfoldable pub symbol_pattern : String → Bool
unfolding all_symbol_chars
symbol_pattern s = leb 1 (char_count s) && leb (char_count s) 12 && all_symbol_chars (codes s)
