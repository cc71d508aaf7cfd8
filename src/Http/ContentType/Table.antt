-- ===== src/Http/ContentType/Table.antt =====
-- The extensions that the server knows, as a table.
use technopark_highload.Http.ContentType.{
  ContentType, txt_plain, txt_html, txt_css, txt_js, img_jpeg, img_png, img_gif, adobe_swf,
  until_nul, content_type_of, get_content_type,
}
use technopark_highload.Prelude.{
  ℕ, suc, ◌≡◌, refl, ◌∙◌, ap, none, some, List, [], ◌∷◌, ◌++◌, arith, length, drop, All, Lacks,
  Bytes, codes,
}
use technopark_highload.Text.{rfind_char}

rfind_char-none : (b : ℕ) (s : Bytes) → Lacks b s → rfind_char b s ≡ none
unfolding rfind_char
rfind_char-none b [] h = refl
rfind_char-none b (c ∷ s) (ne, h) = ground (arith, rfind_char-none b s h)

pub rfind_char-append :
    (b : ℕ) (a s : Bytes) → Lacks b s → rfind_char b (a ++ b ∷ s) ≡ some (length a)
unfolding rfind_char
rfind_char-append b [] s h = ground (arith, rfind_char-none b s h)
rfind_char-append b (c ∷ a) s h = rw (rfind_char-append b a s h)

drop_past : (b : ℕ) (a s : Bytes) → drop (suc (length a)) (a ++ b ∷ s) ≡ s
drop_past b [] s = refl
drop_past b (c ∷ a) s = drop_past b a s

pub until_nul-Lacks : (s : Bytes) → Lacks 0 s → until_nul s ≡ s
unfolding until_nul
until_nul-Lacks [] h = refl
until_nul-Lacks (c ∷ s) (ne, h) = ground (arith, until_nul-Lacks s h)

-- Only what stands behind the last dot counts.
pub get_content_type-append :
    (base ext : Bytes)
    → Lacks b'.' ext
    → Lacks 0 ext
    → get_content_type (base ++ b'.' ∷ ext) ≡ content_type_of ext
unfolding get_content_type
get_content_type-append base ext no_dot no_nul =
    rw (rfind_char-append b'.' base ext no_dot)
      (rw (drop_past b'.' base ext) (ap content_type_of (until_nul-Lacks ext no_nul)))

abbrev pub known_extensions : List (Bytes × ContentType)
known_extensions =
    (codes "jpg", img_jpeg)
    ∷ (codes "JPG", img_jpeg)
    ∷ (codes "jpeg", img_jpeg)
    ∷ (codes "JPEG", img_jpeg)
    ∷ (codes "png", img_png)
    ∷ (codes "PNG", img_png)
    ∷ (codes "gif", img_gif)
    ∷ (codes "swf", adobe_swf)
    ∷ (codes "txt", txt_plain)
    ∷ (codes "TXT", txt_plain)
    ∷ (codes "html", txt_html)
    ∷ (codes "css", txt_css)
    ∷ (codes "js", txt_js)
    ∷ []

clean_extensions : All (λ e. Lacks b'.' e.0 × Lacks 0 e.0) known_extensions
clean_extensions = omega arith

hashed_extensions : All (λ e. content_type_of e.0 ≡ e.1) known_extensions
unfolding content_type_of
hashed_extensions = (
  refl,
  (
    refl,
    (refl, (refl, (refl, (refl, (refl, (refl, (refl, (refl, (refl, (refl, (refl, tt))))))))))),
  ),
)

choose :
    (base : Bytes) (table : List (Bytes × ContentType))
    → All (λ e. Lacks b'.' e.0 × Lacks 0 e.0) table
    → All (λ e. content_type_of e.0 ≡ e.1) table
    → All (λ e. get_content_type (base ++ b'.' ∷ e.0) ≡ e.1) table
choose base [] clean hashed = tt
choose base ((ext, type) ∷ table) ((no_dot, no_nul), clean) (here, hashed) =
    (get_content_type-append base ext no_dot no_nul ∙ here, choose base table clean hashed)

-- Every URL that ends in a dot and a known extension gets the type of the table, whatever stands
-- before the dot.
get_content_type-known_extensions :
    (base : Bytes) → All (λ e. get_content_type (base ++ b'.' ∷ e.0) ≡ e.1) known_extensions
get_content_type-known_extensions base =
    choose base known_extensions clean_extensions hashed_extensions
