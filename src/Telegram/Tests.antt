-- ===== src/Telegram/Tests.antt =====
-- Runs of chunk.go and userlist.go.
use virtualme.Prelude.{ℕ, zero, suc, ◌≡◌, refl, some, List, [], ◌∷◌, ◌++◌}
use virtualme.Text.{Text, codes, text_eq, trim_space}
use virtualme.Telegram.Chunk.{chunk_text, fitting, units_of}
use virtualme.Telegram.Users.{
  Users, ids, ok, normalize_user_ids, set_users, is_canonical, kept, contains, sort, insert,
  sort_key,
}
use virtualme.Telegram.Users.Allowed.{IsChange, set_users-IsChange}
use virtualme.Decimal.{is_digit, parse_int}
use virtualme.Telegram.Chunk.Division.{IsDivision, chunk_text-IsDivision}

abbrev copies : ℕ → ℕ → Text
copies zero c = []
copies (suc n) c = c ∷ copies n c

-- Two messages: the second half of the faces has no room in the first.
abbrev long : Text
long = copies 1600 0x1F600 ++ codes "\n\n" ++ copies 900 0x1F600

chunk_text-IsDivision_example : IsDivision long (chunk_text long)
chunk_text-IsDivision_example = chunk_text-IsDivision long

short_stays : chunk_text (codes "hello\n\nyou") ≡ codes "hello\n\nyou" ∷ []
unfolding chunk_text fitting units_of
short_stays = refl

abbrev users : Users
users = record { allowed = codes "5" ∷ []; saved = some (ids (codes "5" ∷ [])); fates = [] }

abbrev wanted : List Text
wanted = codes " 42 " ∷ codes "42" ∷ [] ∷ codes "7" ∷ []

sorted_once : normalize_user_ids wanted ≡ ok (codes "7" ∷ codes "42" ∷ [])
unfolding normalize_user_ids is_canonical is_digit kept contains text_eq sort insert sort_key
    parse_int trim_space
sorted_once = refl

set_users-IsChange_example : IsChange wanted users (set_users wanted users)
set_users-IsChange_example = set_users-IsChange wanted users
