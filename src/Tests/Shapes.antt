-- ===== src/Tests/Shapes.antt =====
-- Spatial values: payloads that SQL Server sent, and the theorems at concrete geometries.
use sqlx_mssql_rs.Prelude.{ℕ, ◌≡◌, ◌≢◌, refl, List, [], ◌∷◌, ◌++◌, take, drop, arith}
use sqlx_mssql_rs.Prelude.Int.{pos}
use sqlx_mssql_rs.Spatial.{Coord, Geometry, Geometries, GeoTypes, Figure, Fault, ok, fail}
use sqlx_mssql_rs.Spatial.Encode.{encode}
use sqlx_mssql_rs.Spatial.Decode.{decode}
use sqlx_mssql_rs.Spatial.Encode.{encode_geometry}
use sqlx_mssql_rs.Spatial.Normal.{IsRinged, normal}
use sqlx_mssql_rs.Spatial.RoundTrip
use sqlx_mssql_rs.Spatial.RoundTrip.{IsCountable, encoded}
use sqlx_mssql_rs.Spatial.Cut.{decode_cut}
use sqlx_mssql_rs.Spatial.Ends.{decode_ends}

pub plain_rect : (a b : Coord) → (a ∷ b ∷ []) ≢ []
plain_rect a b e = cc

pub plain_triangle : (a b c : Coord) → (a ∷ b ∷ c ∷ []) ≢ []
plain_triangle a b c e = cc

abbrev pub plain : GeoTypes
plain = record {
  polygon_new = λ e i. record { exterior = e; interiors = i };
  rect_to_polygon = λ a b. record { exterior = a ∷ b ∷ []; interiors = [] };
  triangle_to_polygon = λ a b c. record { exterior = a ∷ b ∷ c ∷ []; interiors = [] };
  rect-exterior = plain_rect;
  triangle-exterior = plain_triangle;
}

abbrev pub one : ℕ
one = 0x3ff0000000000000

abbrev pub two : ℕ
two = 0x4000000000000000

abbrev pub at : ℕ → ℕ → Coord
at x y = record { x = x; y = y }

abbrev pub ring : List Coord
ring = at 0 0 ∷ at one 0 ∷ at 0 one ∷ at 0 0 ∷ []

abbrev pub mixed : Geometry
mixed = Geometry.geometry_collection (
    Geometries.cons (Geometry.point (at one two)) (
      Geometries.cons
        (Geometry.geometry_collection (
          Geometries.cons (Geometry.line_string []) (
            Geometries.cons
              (Geometry.multi_polygon (
                record { exterior = ring; interiors = ring ∷ [] }
                ∷ record { exterior = ring; interiors = [] }
                ∷ []))
              Geometries.nil)))
        (Geometries.cons (Geometry.multi_line_string (ring ∷ [] ∷ [])) Geometries.nil)))

-- `POINT_4326` of the source's tests.
point_4326 :
    decode plain (
      0xe6 ∷ 0x10 ∷ 0 ∷ 0 ∷ 0x01 ∷ 0x0c ∷ 0 ∷ 0 ∷ 0 ∷ 0 ∷ 0 ∷ 0 ∷ 0xf0 ∷ 0x3f ∷ 0 ∷ 0 ∷ 0 ∷ 0 ∷ 0
      ∷ 0 ∷ 0 ∷ 0x40 ∷ [])
    ≡ ok (pos 4326, Geometry.point (at one two))
unfolding decode
point_4326 = refl

mixed_again : decode plain (encode plain (pos 4326) mixed) ≡ ok (pos 4326, mixed)
unfolding decode encode
mixed_again = refl

pub mixed-IsCountable : IsCountable (encoded plain mixed)
unfolding encode_geometry
mixed-IsCountable = record {
  coords = omega arith;
  point_count = omega arith;
  figure_count = omega arith;
  shape_count = omega arith;
}

pub mixed-IsRinged : IsRinged mixed
mixed-IsRinged = (tt, ((tt, ((λ e. absurd (cc), (λ e. absurd (cc), tt)), tt)), (tt, tt)))

decode-encode-normal_example :
    decode plain (encode plain (pos 4326) mixed) ≡ ok (pos 4326, normal plain mixed)
decode-encode-normal_example =
    RoundTrip.decode-encode-normal plain (pos 4326) mixed (omega arith) mixed-IsCountable
      mixed-IsRinged

abbrev payload : List ℕ
unfolding encode
payload = encode plain (pos 4326) mixed

decode_cut_example : decode plain (take 40 payload) ≡ fail Fault.truncated
decode_cut_example =
    decode_cut plain (pos 4326) mixed (take 40 payload) 0 (drop 41 payload) (omega arith)
      mixed-IsCountable (unfold encode in refl)

-- Two shapes that are each other's parent below one at the top, and a third table cut short.
abbrev cyclic : List ℕ
cyclic =
    0
      ∷ 0
      ∷ 0
      ∷ 0
      ∷ 1
      ∷ 4
      ∷ 0
      ∷ 0
      ∷ 0
      ∷ 0
      ∷ 0
      ∷ 0
      ∷ 0
      ∷ 0
      ∷ 3
      ∷ 0
      ∷ 0
      ∷ 0
      ∷ (255 ∷ 255 ∷ 255 ∷ 255 ∷ 255 ∷ 255 ∷ 255 ∷ 255 ∷ 7 ∷ [])
    ++ ((2 ∷ 0 ∷ 0 ∷ 0 ∷ 255 ∷ 255 ∷ 255 ∷ 255 ∷ 7 ∷ [])
        ++ (1 ∷ 0 ∷ 0 ∷ 0 ∷ 255 ∷ 255 ∷ 255 ∷ 255 ∷ 7 ∷ []))

cyclic_decoded : decode plain cyclic ≡ ok (pos 0, Geometry.geometry_collection Geometries.nil)
unfolding decode
cyclic_decoded = refl

decode_ends_example :
    (decode plain cyclic ≢ fail Fault.looping) × (decode plain cyclic ≢ fail Fault.panicked)
decode_ends_example = decode_ends plain cyclic (omega arith)

abbrev two_figures : List Figure
two_figures =
    record { attribute = 1; point_offset = 1 } ∷ record { attribute = 1; point_offset = 3 } ∷ []
