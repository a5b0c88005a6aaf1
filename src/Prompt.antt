-- ===== src/Prompt.antt =====
-- backend/domain/slashcmd.go: a prompt that opens with a slash command.
use saki_cli.Base.{ℕ, Bool, ◌||◌, Option, none, some, ◌==◌, Text, trim}
use saki_cli.Regexp.{
  is_word, find, is_match, group_of, Found, Re, one, alt, star, group, text_start, text_end,
}
use saki_cli.Regexp.Syntax.{char, space, is_digit, is_letter, plus, optional, at_most, ◌⋅◌}

-- `[\w-]`, `[A-Za-z0-9]` and `[A-Za-z0-9_-]`.
abbrev pub is_name_char : ℕ → Bool
is_name_char c = is_word c || c == b'-'

abbrev pub is_alnum : ℕ → Bool
is_alnum c = is_letter c || is_digit c

abbrev pub name_re : Re
name_re = one is_alnum ⋅ at_most 63 (one is_name_char)

abbrev pub slash_command_re : Re
slash_command_re =
    text_start
    ⋅ star space
    ⋅ char b'/'
    ⋅ optional (plus (one is_name_char) ⋅ char b':')
    ⋅ group 1 name_re
    ⋅ alt (plus space) text_end

abbrev pub leading_slash_re : Re
leading_slash_re = text_start ⋅ star space ⋅ char b'/'

-- LooksLikeSlashCommand.
unfoldable pub looks_like_slash_command : Text → Bool
unfolding find
looks_like_slash_command prompt = is_match leading_slash_re prompt

abbrev pub command_of : Option Found → Option (Text × Text)
command_of none = none
command_of (some m) = some (group_of 1 m, trim m.after)

-- SplitSlashCommand: the name and the rest.
unfoldable pub split_slash_command : Text → Option (Text × Text)
unfolding find trim
split_slash_command prompt = command_of (find slash_command_re prompt)
