-- ===== src/ConfReader/Written.antt =====
-- A configuration file as sections of settings, how it is written, and what a lookup in it means.
use g_max_linked.Base.{
  ℕ, ◌≡◌, false, ◌||◌, Option, none, some, List, [], ◌∷◌, ◌++◌, ◌==◌, if◌then◌else◌,
}
use g_max_linked.ConfReader.{is_newline, is_space, starts_with, end_of_file}

pub record Setting : Type 0 where
  pub name : List ℕ
  pub text : List ℕ

pub record Section : Type 0 where
  pub title : List ℕ
  pub settings : List Setting

abbrev pub line : Setting → List ℕ
line s = s.name ++ b'=' ∷ s.text

abbrev pub write_settings : List Setting → List ℕ → List ℕ
write_settings [] rest = rest
write_settings (s ∷ ss) rest = line s ++ b'\n' ∷ write_settings ss rest

abbrev pub write_sections : List Section → List ℕ → List ℕ
write_sections [] rest = rest
write_sections (x ∷ xs) rest =
    b'[' ∷ (x.title ++ b']' ∷ b'\n' ∷ write_settings x.settings (write_sections xs rest))

-- The settings of all the sections whose title is the start of the name that is asked for.
unfoldable pub settings_of : List ℕ → List Section → List Setting
settings_of section [] = []
settings_of section (x ∷ xs) =
    let rest = settings_of section xs in
    if starts_with section x.title then x.settings ++ rest else rest

-- The text of the first setting whose name is the start of the key.
unfoldable pub value_of : List ℕ → List Setting → Option (List ℕ)
value_of key [] = none
value_of key (s ∷ ss) =
    let rest = value_of key ss in if starts_with key s.name then some s.text else rest

-- Bytes that a line may hold.
abbrev pub IsText : List ℕ → Type 0
IsText [] = Unit
IsText (c ∷ cs) = ((is_newline c || c == 0) ≡ false) × ((c == end_of_file) ≡ false) × IsText cs

abbrev pub IsTitle : List ℕ → Type 0
IsTitle [] = Unit
IsTitle (c ∷ cs) = ((c == b']' || c == 0) ≡ false) × ((c == end_of_file) ≡ false) × IsTitle cs

abbrev pub HasNoEquals : List ℕ → Type 0
HasNoEquals [] = Unit
HasNoEquals (c ∷ cs) = ((c == b'=') ≡ false) × HasNoEquals cs

-- A name does not look like a blank, a comment or a section.
abbrev pub StartsName : List ℕ → Type 0
StartsName [] = ⊥
StartsName (c ∷ cs) = (is_space c ≡ false) × ((c == b';') ≡ false) × ((c == b'[') ≡ false)

pub record IsSetting (s : Setting) : Type 0 where
  pub is_name : IsText s.name
  pub no_equals : HasNoEquals s.name
  pub starts : StartsName s.name
  pub is_text : IsText s.text

abbrev pub AreSettings : List Setting → Type 0
AreSettings [] = Unit
AreSettings (s ∷ ss) = IsSetting s × AreSettings ss

abbrev pub AreSections : List Section → Type 0
AreSections [] = Unit
AreSections (x ∷ xs) = IsTitle x.title × AreSettings x.settings × AreSections xs
