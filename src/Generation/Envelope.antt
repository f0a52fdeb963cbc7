-- ===== src/Generation/Envelope.antt =====
-- The envelope of a generation in packages/host/src/authority-generations.ts. Names stand as numbers; the
-- text of a name, and Node's `basename`, are not that file's.
use pidex.Prelude.{
  ℕ, ◌-◌, ◌^◌, Bool, ◌&&◌, ◌||◌, List, Option, map, ◌==◌, ltb, leb, if◌then◌else◌, Text, text_eq,
}

pub record Spelling : Type 0 where
  pub spelled : ℕ → Text
  pub basename : Text → Text

-- /[a-zA-Z0-9._-]/
abbrev pub is_safe_code : ℕ → Bool
is_safe_code c =
    (leb 97 c && leb c 122)
    || ((leb 65 c && leb c 90)
        || ((leb 48 c && leb c 57) || ((c == 46) || ((c == 95) || (c == 45)))))

abbrev pub underscore : ℕ
underscore = 95

unfoldable pub safe_file_name : Spelling → Text → Text
safe_file_name w t = map (λ c. if is_safe_code c then c else underscore) (w.basename t)

-- `safeFileName(value) === value`
unfoldable pub is_safe : Spelling → ℕ → Bool
unfolding safe_file_name
is_safe w n = text_eq (safe_file_name w (w.spelled n)) (w.spelled n)

-- No predecessor is `null` or the empty text.
pub record GenerationEnvelope : Type 0 where
  pub format_version : ℕ
  pub generation_id : ℕ
  pub activation_index : ℕ
  pub predecessor : Option ℕ
  pub continuity : ℕ
  pub objects : List ℕ
  pub sealed_ : Bool

abbrev pub max_safe_integer : ℕ
max_safe_integer = 2 ^ 53 - 1

-- `isEnvelope` on a value of the right shape.
unfoldable pub is_envelope : Spelling → GenerationEnvelope → Bool
is_envelope w v =
    (v.format_version == 1)
    && (is_safe w v.generation_id
        && (leb v.activation_index max_safe_integer && (ltb 0 v.activation_index && v.sealed_)))
