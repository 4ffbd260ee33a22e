-- ===== src/Protocol/Tests.antt =====
-- Messages that are parsed.
use exchange_engine.Base.{true, [], ◌∷◌, ◌≡◌, ◌≢◌, refl, bytes, some, none}
use exchange_engine.Protocol.Json.{
  boolean, number, string, array, object, item, no_items, member, no_members,
}
use exchange_engine.Protocol.Parser.Lexer.{
  ok, fail, out_of_fuel, trailing_content, leading_zero, duplicate_key,
}
use exchange_engine.Protocol.Parser.{parse_json}
use exchange_engine.Protocol.Message.{classify_engine_fixture_path, input}
use exchange_engine.Protocol.Parser.Total.{parse_json-ends}

object_parsed :
    parse_json (bytes " {\"b\":[1,-2.5e3, true],\"a\":\"x\\u00e9\\n\"} ")
    ≡ ok (
        object (
          member (bytes "a") (string (120 ∷ 195 ∷ 169 ∷ 10 ∷ [])) (
            member
              (bytes "b")
              (array (
                item
                  (number (bytes "1"))
                  (item (number (bytes "-2.5e3")) (item (boolean true) no_items))))
              no_members)))
unfolding parse_json
object_parsed = refl

surrogates_parsed :
    parse_json (bytes "\"\\ud83d\\ude00\"") ≡ ok (string (240 ∷ 159 ∷ 152 ∷ 128 ∷ []))
unfolding parse_json
surrogates_parsed = refl

trailing_refused : parse_json (bytes "null 1") ≡ fail trailing_content
unfolding parse_json
trailing_refused = refl

zero_refused : parse_json (bytes "01") ≡ fail leading_zero
unfolding parse_json
zero_refused = refl

duplicate_refused : parse_json (bytes "{\"a\":1,\"a\":2}") ≡ fail duplicate_key
unfolding parse_json
duplicate_refused = refl

command_classified : classify_engine_fixture_path (bytes "place.command.json") ≡ some input
unfolding classify_engine_fixture_path
command_classified = refl

other_unclassified : classify_engine_fixture_path (bytes "place.json") ≡ none
unfolding classify_engine_fixture_path
other_unclassified = refl

parse_json-ends_example : parse_json (bytes "[{},\"open") ≢ out_of_fuel
parse_json-ends_example = parse_json-ends (bytes "[{},\"open")
