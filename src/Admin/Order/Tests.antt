-- ===== src/Admin/Order/Tests.antt =====
-- The order of the routes at a concrete input.
use nestjs_amqp.Prelude.{String, List, [], ◌∷◌, ◌≡◌, refl, split}
use nestjs_amqp.Prelude.Sort.{sort_by, insert_by}
use nestjs_amqp.Prelude.TextOrder.{text_ltb}
use nestjs_amqp.Admin.Order.{
  segment_kind, split_segments, compare_heads, compare_segments, compare_paths, order_paths,
}

abbrev own_path : String → String
own_path path = path

abbrev resources : List String
resources =
    "/resources/*" ∷ "/resources/:name" ∷ "/resources/path" ∷ "/resources" ∷ "/resources/list" ∷ []

static_first :
    order_paths own_path resources
    ≡ "/resources" ∷ "/resources/list" ∷ "/resources/path" ∷ "/resources/:name" ∷ "/resources/*"
      ∷ []
unfolding order_paths sort_by insert_by compare_paths compare_segments compare_heads split_segments
    split segment_kind text_ltb
static_first = refl

-- Express does not tell capitals from small letters, the order does.
capitals_first :
    order_paths own_path ("/users/list" ∷ "/Users/:id" ∷ []) ≡ "/Users/:id" ∷ "/users/list" ∷ []
unfolding order_paths sort_by insert_by compare_paths compare_segments compare_heads split_segments
    split segment_kind text_ltb
capitals_first = refl
