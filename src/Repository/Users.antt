-- ===== src/Repository/Users.antt =====
-- The statements of internal/repository/users.sql.go.
use Prim.Native.String.{String}
use text.Mathlib.Text.{◌==◌ as str_eq}
use hedonify.Prelude.{
  ℕ, [], ◌∷◌, ◌++◌, Option, none, some, ◌==◌, ◌||◌, if◌then◌else◌, find_first, any_of,
}
use hedonify.Repository.Models.{overflows, Timestamptz, User, Db}

-- select … from users where email = $1
unfoldable pub find_by_email : String → Db → Option User
find_by_email email db = find_first (λ u. str_eq email u.email) db.users

-- select … from users where id = $1
unfoldable pub find_by_id : ℕ → Db → Option User
find_by_id id db = find_first (λ u. id == u.id) db.users

pub record InsertUserParams : Type 0 where
  pub username : String
  pub email : String
  pub password : String
  pub created_at : Timestamptz
  pub updated_at : Timestamptz

-- insert into users … returning …; the name and the address are unique and varchar(128), the hash is
-- varchar(256).
unfoldable pub insert_user : ℕ → InsertUserParams → Db → Option (User × Db)
insert_user fresh arg db =
    if any_of (λ u. fresh == u.id || str_eq arg.username u.username || str_eq arg.email u.email)
      db.users
    then none
    else if overflows 128 arg.username || overflows 128 arg.email || overflows 256 arg.password
    then none
    else (let row : User = record {
      id = fresh;
      username = arg.username;
      email = arg.email;
      password = arg.password;
      created_at = arg.created_at;
      updated_at = arg.updated_at;
    } in
        some (row, record db { users = db.users ++ row ∷ [] }))
