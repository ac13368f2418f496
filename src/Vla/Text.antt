-- ===== src/Vla/Text.antt =====
-- What Python's `str` answers here: the length, and the number of words that `split()` finds.
use Prim.Native.Nat.{ℕ, suc}
use Prim.Native.Char.{code}
use Prim.Native.String.{String, [], ◌∷◌}
use mathlib.Core.Bool.{Bool, true, false, ◌&&◌, ◌||◌}
use action_stream.Prelude.{leb, ◌==◌, if◌then◌else◌}

unfoldable pub text_length : String → ℕ
text_length [] = 0
text_length (c ∷ s) = suc (text_length s)

-- the code points that `str.isspace` accepts
is_space_code : ℕ → Bool
is_space_code n =
    leb 9 n && leb n 13
    || leb 28 n && leb n 32
    || n == 133
    || n == 160
    || n == 5760
    || leb 8192 n && leb n 8202
    || n == 8232
    || n == 8233
    || n == 8239
    || n == 8287
    || n == 12288

-- the words that begin in the text, if its front stands in a word or not
words_from : Bool → String → ℕ
unfolding is_space_code
words_from in_word [] = 0
words_from in_word (c ∷ s) =
    let after_space = words_from false s in
    let in_this = words_from true s in
    if is_space_code (code c) then after_space else (if in_word then in_this else suc in_this)

-- `len(text.split())`
pub word_count : String → ℕ
unfolding words_from
word_count s = words_from false s
