-- ===== src/Tests/Client.antt =====
-- A client of the directory "/r" with one file and one directory, and an empty server.
use ntu_sp17fall.Base.{
  ◌≡◌, ◌≢◌, refl, ◌⊎◌, true, false, List, [], ◌∷◌, ◌++◌, Option, none, some, pos, Text, codes,
  length, text_eq, lacks,
}
use ntu_sp17fall.Hash.{
  Hash, put_into_hash, locate, buckets, slot, store, chain_put, get_from_hash, chain_get,
}
use ntu_sp17fall.Hash.Laws.{IsValid}
use ntu_sp17fall.Hash.ByPath.{find_bucket}
use ntu_sp17fall.Server.{Header, Server, need_data, sync_at}
use ntu_sp17fall.Server.Account
use ntu_sp17fall.Server.Account.{get_account_info}
use ntu_sp17fall.Client.{System, Client, Sent, meta, file, login, Run, sync_file, meta_hash}
use ntu_sp17fall.Client.Paths.{full_path, convert_to_relative_path, convert_to_relative_path_lem}
use ntu_sp17fall.Client.Exchange.{replies, file_after, text_of, payload}
use ntu_sp17fall.Client.Upload.{answers_for, sync_file-uploads}
use ntu_sp17fall.Client.Events.{Event, handle_events}
use ntu_sp17fall.Client.Removal.{handle_events-stuck}
use ntu_sp17fall.Client.Session.{client_login, client_login_lem}
use ntu_sp17fall.Tests.Hash.{fresh, fresh-IsValid, entry, put-IsValid}

-- The path is longer than the root: its tail is lost.
convert_to_relative_path_lem_example :
    convert_to_relative_path true (codes "/r") (codes "/r") (codes "abc") ≡ some (codes "/a")
unfolding full_path lacks
convert_to_relative_path_lem_example =
    convert_to_relative_path_lem true (codes "/r") (codes "/r") (codes "abc") (codes "/abc") refl
      refl

abbrev system : System
system = record {
  stat = λ p. record { mode = 33188; atime = 1; mtime = 2 };
  content = λ p. some (codes "text");
  md5 = λ t. t;
  inode = λ p. pos (length p);
  watch = λ p. pos (length p);
  getcwd = λ p. true;
  chdir = λ p. true;
  alloc = true;
}

abbrev watches_1 : Hash Text
watches_1 = record { node = some ([] ∷ [] ∷ [] ∷ (entry 3 (codes "/r") ∷ []) ∷ [] ∷ []); n = 5 }

abbrev watches_2 : Hash Text
watches_2 = record {
  node = some ([] ∷ [] ∷ [] ∷ (entry 3 (codes "/r") ∷ []) ∷ (entry 4 (codes "/r/d") ∷ []) ∷ []);
  n = 5;
}

put_r : put_into_hash true fresh (codes "/r") (pos 3) ≡ some (true, watches_1)
unfolding put_into_hash locate buckets slot store chain_put
put_r = refl

put_d : put_into_hash true watches_1 (codes "/r/d") (pos 4) ≡ some (true, watches_2)
unfolding put_into_hash locate buckets slot store chain_put
put_d = refl

watches_2-IsValid : IsValid watches_2
watches_2-IsValid =
    put-IsValid watches_1 watches_2 (codes "/r/d") (pos 4)
      (put-IsValid fresh watches_1 (codes "/r") (pos 3) fresh-IsValid put_r) put_d

abbrev client : Client
client = record {
  root = codes "/r";
  client_id = 4;
  dir_hash = fresh;
  inotify_hash = watches_2;
  ignore_inotify_event = false;
}

abbrev f_at : Text
f_at = codes "/r/f"

sync_file-uploads_example :
    let calls =
      sync_at 4
        (codes "home" ++ codes "/f")
        (system.stat f_at)
        (meta_hash system f_at)
        (answers_for none [] (codes "text")) in
    (out : List Sent) × (sync_file system
        (codes "/r")
        (codes "f")
        (record { client = client; sent = []; answers = replies calls })
      ≡ some (
        tt,
        record {
          client = client;
          sent =
              (((meta 4 2 (system.stat f_at) (meta_hash system f_at) ∷ []) ++ text_of (codes "/f"))
                ++ (file 4 4 ∷ []))
              ++ out;
          answers = [];
        },
      ))
    × (payload out ≡ codes "text")
    × ((old : Option Text)
        → file_after (codes "home" ++ codes "/f") calls old ≡ some (codes "text"))
unfolding convert_to_relative_path need_data full_path
sync_file-uploads_example =
    sync_file-uploads system (codes "/r") (codes "f") (codes "/f") (codes "text") client 4
      (codes "home") none [] refl refl refl refl

abbrev server : Server
server = record { client = λ fd. none; path = codes "sdir"; account = some (codes "a,x\n") }

abbrev login_calls_run : Run
login_calls_run = record {
  client = client;
  sent = [];
  answers = replies (Account.login system.md5 server 7 (codes "a") (codes "x")).1;
}

client_login_lem_example :
    ((get_account_info system.md5 server (codes "a") ≡ some (codes "x"))
      × (client_login system (codes "a") (codes "x") true login_calls_run
          ≡ some (
            true,
            record {
              client = record client { client_id = 7 };
              sent = login (codes "a") (codes "x") ∷ [];
              answers = [];
            },
          )))
    ⊎ ((get_account_info system.md5 server (codes "a") ≢ some (codes "x"))
        × (client_login system (codes "a") (codes "x") true login_calls_run
            ≡ some (
              false,
              record { client = client; sent = login (codes "a") (codes "x") ∷ []; answers = [] },
            )))
client_login_lem_example = client_login_lem system server 7 (codes "a") (codes "x") client refl

abbrev d_gone : Event
d_gone = record {
  wd = pos 3;
  is_create = false;
  is_attrib = false;
  is_delete = true;
  is_dir = true;
  name = codes "d";
}

-- The kernel's last event of the directory's own watch.
abbrev d_ignored : Event
d_ignored = record {
  wd = pos 4;
  is_create = false;
  is_attrib = false;
  is_delete = false;
  is_dir = false;
  name = [];
}

abbrev rm_answer : Header
rm_answer = record { magic = 145; op = 5; status = 0; client_id = 4; datalen = 0 }

handle_events-stuck_example :
    handle_events system
      (codes "/")
      50
      (d_gone ∷ d_ignored ∷ [])
      (record { client = client; sent = []; answers = rm_answer ∷ [] })
    ≡ none
unfolding get_from_hash locate buckets slot chain_get convert_to_relative_path find_bucket text_eq
handle_events-stuck_example =
    handle_events-stuck system (codes "/") 50 d_gone d_ignored [] client [] rm_answer []
      (codes "/r") (codes "/d") 4 watches_2-IsValid refl refl refl refl refl refl refl refl
