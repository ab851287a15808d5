-- ===== src/Tests/Machine.antt =====
-- A machine for the tests: files in an association list, a server that answers by the URL, and an
-- oracle that is the list of values that `g_terminate` will have.
use ota_fetch.Base.{
  length, take, drop, Bytes, bytes_eq, Option, none, some, Bool, true, false, List, [], ◌∷◌, ◌++◌,
  ◌==◌, if◌then◌else◌,
}
use ota_fetch.Platform.{Platform, made, Unlink, removed, missing, Child, Transfer, is_name}

abbrev pub Files : Type 0
Files = List (Bytes × Bytes)

unfoldable pub lookup : Bytes → Files → Option Bytes
unfolding bytes_eq
lookup p [] = none
lookup p ((q, contents) ∷ w) = if bytes_eq p q then some contents else lookup p w

unfoldable pub erase : Bytes → Files → Files
unfolding bytes_eq
erase p [] = []
erase p ((q, contents) ∷ w) = if bytes_eq p q then erase p w else (q, contents) ∷ erase p w

abbrev pub insert : Bytes → Bytes → Files → Files
insert p contents w = (p, contents) ∷ erase p w

-- What is left of a path behind a prefix.
abbrev pub behind : Bytes → Bytes → Option Bytes
behind [] path = some path
behind (c ∷ p) [] = none
behind (c ∷ p) (d ∷ path) = if c == d then behind p path else none

abbrev pub listed : Option Bytes → List Bytes → List Bytes
listed none names = names
listed (some name) names = if is_name name then name ∷ names else names

abbrev pub entries : Bytes → Files → List Bytes
entries dir [] = []
entries dir ((q, contents) ∷ w) = listed (behind (dir ++ b'/' ∷ []) q) (entries dir w)

abbrev pub is_dir : Option Bytes → Option Bool
is_dir none = none
is_dir (some contents) = some false

abbrev pub next_flag : List Bool → Bool × List Bool
next_flag [] = (true, [])
next_flag (flag ∷ flags) = (flag, flags)

abbrev pub unlinked : Bytes → Files → Option Bytes → Unlink × Files
unlinked p w none = (missing, w)
unlinked p w (some contents) = (removed, erase p w)

abbrev pub renamed : Bytes → Bytes → Files → Option Bytes → Bool × Files
renamed a b w none = (false, w)
renamed a b w (some contents) = (true, insert b contents (erase a w))

abbrev pub served : Bytes → Files → Option Bytes → Transfer × Files
served p w none = (record { curle_ok = true; http_code = 404 }, w)
served p w (some contents) = (record { curle_ok = true; http_code = 200 }, insert p contents w)

abbrev pub machine : (Bytes → Option Bytes) → Child → Platform
machine server child = record {
  World = Files;
  Oracle = List Bool;
  Stream = Bytes;
  file = λ w p. lookup p w;
  same = bytes_eq;
  unread = λ s. s;
  malloc = λ n o. (true, o);
  fopen_rb = λ p w o. (lookup p w, o);
  file_size = λ s. some (length s);
  rewind = λ s. true;
  fread = λ n s. (take n s, drop n s);
  ferror = λ s. false;
  stat = λ p w o. (is_dir (lookup p w), o);
  readdir = λ p w o. (some (entries p w), o);
  curl_easy_init = λ o. (true, o);
  g_terminate = next_flag;
  mkdir = λ p m w o. (made, w, o);
  unlink = λ p w o. ((unlinked p w (lookup p w)).0, (unlinked p w (lookup p w)).1, o);
  rename = λ a b w o. ((renamed a b w (lookup a w)).0, (renamed a b w (lookup a w)).1, o);
  fopen_wb = λ p w o. (true, insert p [] w, o);
  fflush = λ p w o. (true, w, o);
  fclose = λ p w o. (true, w, o);
  curl_easy_perform = λ r p w o. ((served p w (server r.url)).0, (served p w (server r.url)).1, o);
  rauc_install = λ p w o. (child, w, o);
  reboot = λ w o. (tt, w, o);
  sleep = λ n w o. (tt, w, o);
}
