-- ===== src/Utils.antt =====
-- internal/utils/helpers.go: the id of the chat of two users.
mod Tests
pub mod ChatId
use h_go.Base.{String, Bool, cat, if◌then◌else◌, str_le}

unfoldable pub c2c_chat_id : String → String → String
c2c_chat_id a b =
    if str_le a b then cat "c2c:" (cat a (cat ":" b)) else cat "c2c:" (cat b (cat ":" a))
