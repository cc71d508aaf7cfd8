-- ===== src/Http/Headers.antt =====
-- The loop of `FormResponseHeader` and `FormRequestHeader` that prints the map of headers.
use technopark_highload.Dict.{Dict}
use technopark_highload.Http.Request.RoundTrip.{render_headers}
use technopark_highload.Prelude.{
  ◌≡◌, ◌≢◌, refl, Bool, true, false, [], ◌∷◌, ◌++◌, append_assoc, if◌then◌else◌, All, Bytes, codes,
}

abbrev pub crlf : Bytes
crlf = codes "\r\n"

abbrev pub is_empty : Bytes → Bool
is_empty [] = true
is_empty (_ ∷ _) = false

pub is_empty_ne : (s : Bytes) → s ≢ [] → is_empty s ≡ false
is_empty_ne [] ne = absurd (ne refl)
is_empty_ne (c ∷ s) ne = refl

-- `for (auto& header_pair : headers)`: a header with an empty value is left out
unfoldable pub print_headers : Dict → Bytes
print_headers [] = []
print_headers ((k, v) ∷ m) =
    (if is_empty v then [] else k ++ (codes ": " ++ (v ++ crlf))) ++ print_headers m

-- With no empty value the loop prints each pair on a line.
pub print_headers-render_headers :
    (m : Dict) (rest : Bytes)
    → All (λ h. h.1 ≢ []) m
    → print_headers m ++ rest ≡ render_headers m rest
unfolding print_headers
print_headers-render_headers [] rest h = refl
print_headers-render_headers ((k, []) ∷ m) rest (ne, h) = absurd (ne refl)
print_headers-render_headers ((k, c ∷ v) ∷ m) rest (ne, h) =
    simp (append_assoc, print_headers-render_headers m rest h)
