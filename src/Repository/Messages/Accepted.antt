-- ===== src/Repository/Messages/Accepted.antt =====
-- The requests that `Validate` of backend/internal/model/message.go lets through meet the
-- constraints of the table `messages`.
use Prim.Native.String.{count}
use geo_note.Common.{
  ◌≡◌, refl, ℕ, String, true, false, Option, List, [], ◌∷◌, ◌||◌, not, exists, leb, ltb, str_eq,
  arith, eq_iff, Bool-cases, All, inl, inr,
}
use geo_note.Common.Text.{trim_space, count-trim_space, bytes, count-bytes}
use geo_note.Model.{MessageRow, User, CreateMessageRequest}
use geo_note.Model.Validation.{
  validate_message, message_checks, errors, Check, among, visibilities, message_types,
}
use geo_note.Repository.Query.{Db}
use geo_note.Repository.Messages.Writes.{
  new_row, message_violates, one_of, or_default, is_integer, radius_or_default,
}
use geo_note.Common.Int.{ℤ, pos, negsuc, ltb_ℤ}

errors-none : (checks : List Check) → errors checks ≡ [] → All (λ c. c.0 ≡ false) checks
unfolding errors
errors-none [] h = tt
errors-none ((true, name, message) ∷ checks) h = absurd (cc)
errors-none ((false, name, message) ∷ checks) h = (refl, errors-none checks h)

default-visibility :
    (s : String)
    → not (among visibilities s) ≡ false
    → not (one_of ("public" ∷ "friends" ∷ "private" ∷ []) (or_default s "public")) ≡ false
unfolding or_default
default-visibility s h = elim (Bool-cases (str_eq s "")) [
  | inl e ↦ rw e refl
  | inr e ↦ rw e (ground (arith, eq_iff s "", eq_iff "" s))
]

default-type :
    (s : String)
    → not (among message_types s) ≡ false
    → not (one_of ("standard" ∷ "mystery" ∷ "capsule" ∷ []) (or_default s "standard")) ≡ false
unfolding or_default
default-type s h = elim (Bool-cases (str_eq s "")) [
  | inl e ↦ rw e refl
  | inr e ↦ rw e (ground (arith, eq_iff s "", eq_iff "" s))
]

short :
    (s : String)
    → (str_eq s "" || ltb 500 (bytes s)) ≡ false
    → leb (count (trim_space s)) 500 ≡ true
short s h = ground (arith, count-trim_space s, count-bytes s)

within : (n : ℤ) → ltb_ℤ (pos 2147483647) n ≡ false → is_integer (radius_or_default n) ≡ true
unfolding is_integer radius_or_default
within (pos n) h = ground (arith, h)
within (negsuc n) h = ground arith

-- A request that `Validate` lets through, whose content is not blank and whose radius is below
-- 2^31, meets every constraint of the table: where the author exists and the id is new, the row that `Create` makes of it violates none.
pub validate_message-accepted :
    (parse_rfc3339 : String → Option ℕ) (new_id : String) (now : ℕ) (user_id : String)
    (r : CreateMessageRequest) (db : Db)
    → validate_message r ≡ []
    → str_eq (trim_space r.content) "" ≡ false
    → ltb_ℤ (pos 2147483647) r.mystery_radius ≡ false
    → exists (λ (u : User). str_eq u.id user_id) db.users ≡ true
    → exists (λ (m : MessageRow). str_eq m.id new_id) db.messages ≡ false
    → message_violates (new_row parse_rfc3339 new_id now user_id r) db ≡ false
unfolding message_violates new_row validate_message
validate_message-accepted parse_rfc3339 new_id now user_id r db h filled small author fresh =
    let checked = errors-none (message_checks r) h in
    rw
      (
        author,
        fresh,
        filled,
        short r.content checked.0,
        default-visibility r.visibility checked.1.1.1.0,
        default-type r.message_type checked.1.1.1.1.0,
        within r.mystery_radius small,
      )
      refl
