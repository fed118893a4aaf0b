-- ===== src/Tests/Texts.antt =====
-- URIs, lock tokens and strings with white space.
use limestone.Prelude.{◌≡◌, ◌↔◌, ◌<◌, refl, Bytes, none, some, [], ◌∷◌, ◌++◌, codes}
use limestone.Text.Uri.{compact_uri}
use limestone.Text.Uri.Compact.{segments, segments-compact_uri}
use limestone.Text.Uuid.{
  add_hyphens_to_uuid, remove_hyphens_from_uuid, format_locktoken, parse_locktoken, token, overflow,
  opaque_prefix,
}
use limestone.Text.Uuid.RoundTrip.{
  NoHyphen, remove-add_hyphens, parse-format_locktoken, remove_hyphens_overflows,
  parse_locktoken_overflows,
}
use limestone.Text.Trim.{strip_whitespace}
use limestone.Text.Trim.Laws.{
  AllSpace, NoSpaceFirst, strip_whitespace-eq-none, strip_whitespace_parts,
}
use mathlib.Core.List.{reverse}

segments-compact_uri_example : segments (compact_uri (codes "//a//b/")) ≡ codes "a" ∷ codes "b" ∷ []
unfolding segments
segments-compact_uri_example = segments-compact_uri (codes "//a//b/")

abbrev uuid : Bytes
uuid = codes "0123456789abcdef0123456789abcdef"

uuid-NoHyphen : NoHyphen uuid
uuid-NoHyphen = (
  refl,
  (
    refl,
    (
      refl,
      (
        refl,
        (
          refl,
          (
            refl,
            (
              refl,
              (
                refl,
                (
                  refl,
                  (
                    refl,
                    (
                      refl,
                      (
                        refl,
                        (
                          refl,
                          (
                            refl,
                            (
                              refl,
                              (
                                refl,
                                (
                                  refl,
                                  (
                                    refl,
                                    (
                                      refl,
                                      (
                                        refl,
                                        (
                                          refl,
                                          (
                                            refl,
                                            (
                                              refl,
                                              (
                                                refl,
                                                (
                                                  refl,
                                                  (
                                                    refl,
                                                    (
                                                      refl,
                                                      (refl, (refl, (refl, (refl, (refl, tt))))),
                                                    ),
                                                  ),
                                                ),
                                              ),
                                            ),
                                          ),
                                        ),
                                      ),
                                    ),
                                  ),
                                ),
                              ),
                            ),
                          ),
                        ),
                      ),
                    ),
                  ),
                ),
              ),
            ),
          ),
        ),
      ),
    ),
  ),
)

remove-add_hyphens_example :
    (out : Bytes) × (add_hyphens_to_uuid uuid ≡ some out)
    × (remove_hyphens_from_uuid out ≡ some uuid)
remove-add_hyphens_example = remove-add_hyphens uuid refl uuid-NoHyphen

parse-format_locktoken_example :
    (s : Bytes) × (format_locktoken (some uuid) ≡ some s) × (parse_locktoken s ≡ token (some uuid))
parse-format_locktoken_example = parse-format_locktoken uuid refl uuid-NoHyphen

remove_hyphens_overflows_example : (remove_hyphens_from_uuid (uuid ++ codes "0") ≡ none) ↔ (32 < 33)
remove_hyphens_overflows_example = remove_hyphens_overflows (uuid ++ codes "0")

parse_locktoken_overflows_example :
    (parse_locktoken (opaque_prefix ++ (uuid ++ codes "0")) ≡ overflow) ↔ (32 < 33)
parse_locktoken_overflows_example = parse_locktoken_overflows (uuid ++ codes "0")

strip_whitespace-eq-none_example : (strip_whitespace (codes " \t") ≡ none) ↔ AllSpace (codes " \t")
strip_whitespace-eq-none_example = strip_whitespace-eq-none 32 (codes "\t")

strip_whitespace_parts_example :
    (before after : Bytes) × (codes "  a b\n" ≡ before ++ (codes "a b" ++ after))
    × AllSpace before
    × AllSpace after
    × NoSpaceFirst (codes "a b")
    × NoSpaceFirst (reverse (codes "a b"))
unfolding strip_whitespace
strip_whitespace_parts_example = strip_whitespace_parts (codes "  a b\n") (codes "a b") refl
