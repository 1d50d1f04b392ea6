-- ===== src/Shell/Examples.antt =====
-- A line with two words, and keys with a character that is taken back.
use vyper.Prelude.{bytes, ◌≡◌, refl, [], ◌∷◌, Bytes, take, replicate}
use vyper.Shell.{parse_args, skip_spaces, take_word, read_line}
use vyper.Shell.Args.{words, parse_args_lem}
use vyper.Shell.Editing.{edited, Agrees, read_line_lem}

two_words : parse_args (bytes "  cat  /x ") 8 ≡ bytes "cat" ∷ bytes "/x" ∷ []
unfolding parse_args skip_spaces take_word
two_words = refl

parse_args_lem_example : parse_args (bytes "  cat  /x ") 8 ≡ take 8 (words (bytes "  cat  /x "))
parse_args_lem_example = parse_args_lem (bytes "  cat  /x ") 8

-- 'l', 's', 'x', a delete, the end of the line
abbrev keys : Bytes
keys = b'l' ∷ b's' ∷ b'x' ∷ 127 ∷ 10 ∷ []

read_line_lem_example : Agrees 7 (edited 7 [] keys) (read_line (replicate 8 0) keys)
read_line_lem_example = read_line_lem 7 (replicate 8 0) keys refl
