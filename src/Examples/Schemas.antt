-- ===== src/Examples/Schemas.antt =====
-- A schema with one property.
use llm_calling.Base.{refl, [], ◌∷◌}
use llm_calling.Json.{str, obj, Fields, end, field}
use llm_calling.Runtime.Schema.{closed_schema}
use llm_calling.Runtime.Schema.Nodes.{at_key, StandsAt, IsClosing, closed_schema-IsClosed}

abbrev schema : Fields
schema =
    field "type" (str "object")
      (field "properties" (obj (field "a" (obj (field "type" (str "object") end)) end)) end)

abbrev inner : Fields
inner = field "type" (str "object") end

closed_schema-IsClosed_example :
    (gs : Fields) × StandsAt
      (at_key "properties" ∷ at_key "a" ∷ [])
      (obj (closed_schema schema))
      (obj gs)
    × IsClosing inner gs
closed_schema-IsClosed_example =
    closed_schema-IsClosed schema inner (at_key "properties" ∷ at_key "a" ∷ []) (
      schema,
      obj (field "a" (obj inner) end),
      refl,
      refl,
      (field "a" (obj inner) end, obj inner, refl, refl, refl),
    )
