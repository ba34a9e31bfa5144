-- ===== src/Utils/Tests.antt =====
-- Ids of private chats.
use h_go.Base.{◌≡◌, refl, false}
use h_go.Text.Chars.{has_code}
use h_go.Utils.{c2c_chat_id}

plain :
    (has_code b':' "ann" ≡ false)
    × (has_code b':' "bob" ≡ false)
    × (c2c_chat_id "ann" "bob" ≡ c2c_chat_id "bob" "ann")
unfolding c2c_chat_id
plain = (refl, refl, refl)
