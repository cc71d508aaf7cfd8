-- ===== src/Http/ContentType.antt =====
-- include/content_types.hpp, and the choice of a type by the end of the URL (HttpResponse.cpp).
pub mod Table
use Prim.Native.Nat.{bit_xor}
use technopark_highload.Prelude.{
  ℕ, suc, ◌+◌, ◌-◌, ◌*◌, ◌%◌, ◌^◌, Bool, ◌||◌, Option, none, some, [], ◌∷◌, ltb, ◌==◌,
  if◌then◌else◌, drop, Bytes, codes,
}
use technopark_highload.Text.{rfind_char}

pub data ContentType : Type 0 where
  undef txt_plain txt_html txt_css txt_js img_jpeg img_png img_gif adobe_swf : ContentType

-- a (signed) `char` as an `unsigned int`
abbrev unsigned : ℕ → ℕ
unsigned c = if ltb c 128 then c else 2 ^ 32 - (256 - c)

-- the hash behind the `switch`, in 32 bits
unfoldable pub hash : Bytes → ℕ
hash [] = 5381
hash (c ∷ s) = bit_xor ((hash s * 33) % 2 ^ 32) (unsigned c)

-- `c_str()` as a C string: it ends at the first byte 0
unfoldable pub until_nul : Bytes → Bytes
until_nul [] = []
until_nul (c ∷ s) = let rest = c ∷ until_nul s in if c == 0 then [] else rest

abbrev pub is : Bytes → Bytes → Bool
is ext label = hash ext == hash label

unfoldable pub content_type_of : Bytes → ContentType
unfolding hash
content_type_of ext =
    if is ext (codes "/")
    then txt_html
    else if is ext (codes "jpg")
        || is ext (codes "JPG")
        || is ext (codes "jpeg")
        || is ext (codes "JPEG")
    then img_jpeg
    else if is ext (codes "png") || is ext (codes "PNG")
    then img_png
    else if is ext (codes "gif")
    then img_gif
    else if is ext (codes "swf")
    then adobe_swf
    else if is ext (codes "txt") || is ext (codes "TXT")
    then txt_plain
    else if is ext (codes "html")
    then txt_html
    else if is ext (codes "css")
    then txt_css
    else if is ext (codes "js")
    then txt_js
    else undef

-- behind the last dot, or the whole URL: `npos + 1` is 0
abbrev pub extension_start : Option ℕ → ℕ
extension_start none = 0
extension_start (some i) = suc i

unfoldable pub get_content_type : Bytes → ContentType
unfolding until_nul content_type_of
get_content_type url =
    content_type_of (until_nul (drop (extension_start (rfind_char b'.' url)) url))

-- the `switch` of `SetContentType`
unfoldable pub content_type_name : ContentType → Bytes
content_type_name txt_html = codes "text/html"
content_type_name txt_css = codes "text/css"
content_type_name txt_js = codes "text/javascript"
content_type_name txt_plain = codes "text/plain"
content_type_name img_jpeg = codes "image/jpeg"
content_type_name img_png = codes "image/png"
content_type_name img_gif = codes "image/gif"
content_type_name adobe_swf = codes "application/x-shockwave-flash"
content_type_name undef = codes "undefined"
