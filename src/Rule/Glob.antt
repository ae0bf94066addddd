-- ===== src/Rule/Glob.antt =====
-- src/rule.rs: `.exe` suffixes and globs. The crate `regex` is a parameter.
pub mod Suffix
use ace_tun.Base.{
  ℕ, ◌-◌, Option, none, some, List, [], ◌∷◌, ◌++◌, ltb, leb, Bool, ◌==◌, if◌then◌else◌, ◌>>=◌,
}
use ace_tun.Text.{Text, codes, byte_len, split_at_byte, eq_ignore_ascii_case}

-- `regex::escape`, `Regex::new` (`none` for a pattern that is refused) and `Regex::is_match`.
pub record RegexCrate : Type 1 where
  pub Regex : Type 0
  pub escape : Text → Text
  pub new : Text → Option Regex
  pub is_match : Regex → Text → Bool

abbrev pub exe_suffix : Text
exe_suffix = codes ".exe"

-- `none` is a panic: the offset four bytes before the end lies inside a character.
unfoldable pub strip_exe_suffix : Text → Option Text
unfolding byte_len split_at_byte eq_ignore_ascii_case
strip_exe_suffix token = if ltb (byte_len token) (byte_len exe_suffix) then some token else do
  (stem, suffix) ← split_at_byte token (byte_len token - byte_len exe_suffix)
  some (if eq_ignore_ascii_case suffix exe_suffix then stem else token)

module _ (rx : RegexCrate) where
  unfoldable pub glob_char : ℕ → Text
  glob_char ch =
      if ch == b'*' then codes ".*" else if ch == b'?' then codes "." else rx.escape (ch ∷ [])

  unfoldable pub glob_body : Text → Text
  unfolding glob_char
  glob_body [] = []
  glob_body (ch ∷ glob) = glob_char ch ++ glob_body glob

  unfoldable pub compile_glob : Text → Option rx.Regex
  unfolding glob_body
  compile_glob glob = rx.new (codes "(?i)^" ++ glob_body glob ++ codes "$")
