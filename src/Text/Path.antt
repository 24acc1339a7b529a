-- ===== src/Text/Path.antt =====
-- The cleaning of a request's path by `http.ServeMux`: `cleanPath`, with `path.Clean` on a path that
-- begins with a slash.
use Prim.Native.Char.{Char, code}
use Prim.Native.String.{[], ◌∷◌, ◌++◌}
use payment_webhook_processo.Prelude.{
  String, Bool, false, not, List, ◌&&◌, ◌||◌, nat_eq, ◌==◌, if◌then◌else◌,
}

abbrev is_slash : Char → Bool
is_slash c = nat_eq (code c) 47

abbrev onto_first : Char → List String → List String
onto_first c List.[] = List.◌∷◌ (c ∷ "") List.[]
onto_first c (List.◌∷◌ x xs) = List.◌∷◌ (c ∷ x) xs

-- The texts between slashes.
unfoldable pub segments : String → List String
segments [] = List.◌∷◌ "" List.[]
segments (c ∷ s) =
    let rest = segments s in if is_slash c then List.◌∷◌ "" rest else onto_first c rest

abbrev parent : List String → List String
parent List.[] = List.[]
parent (List.◌∷◌ x xs) = xs

abbrev enter : String → List String → List String
enter x kept =
    if x == "" || x == "." then kept else if x == ".." then parent kept else List.◌∷◌ x kept

-- The segments kept, the last one first.
unfoldable pub resolve : List String → List String → List String
resolve kept List.[] = kept
resolve kept (List.◌∷◌ x xs) = resolve (enter x kept) xs

unfoldable pub rooted : List String → String
rooted List.[] = ""
rooted (List.◌∷◌ x kept) = rooted kept ++ "/" ++ x

abbrev or_root : String → String
or_root s = if s == "" then "/" else s

abbrev starts_with_slash : String → Bool
starts_with_slash [] = false
starts_with_slash (c ∷ s) = is_slash c

unfoldable pub ends_with_slash : String → Bool
ends_with_slash [] = false
ends_with_slash (c ∷ s) = let rest = ends_with_slash s in if s == "" then is_slash c else rest

abbrev keep_last_slash : String → String → String
keep_last_slash p cleaned =
    if ends_with_slash p && not (cleaned == "/") then cleaned ++ "/" else cleaned

abbrev clean_rooted : String → String
clean_rooted p = keep_last_slash p (or_root (rooted (resolve List.[] (segments p))))

unfoldable pub clean_path : String → String
unfolding segments resolve rooted ends_with_slash
clean_path p = if p == "" then "/" else clean_rooted (if starts_with_slash p then p else "/" ++ p)
