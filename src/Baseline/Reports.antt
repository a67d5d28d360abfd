-- ===== src/Baseline/Reports.antt =====
-- The reports of container-baseline/app.py, and what the ingest API makes of them.
use unikernal_honeynet.Base.{
  String, Bool, true, false, ◌&&◌, ◌||◌, not, List, [], ◌∷◌, ◌++◌, ◌≡◌, refl, ap, ◌∙◌, arith,
  str_eq, eq_iff, if◌then◌else◌, contains, any, elem, Bool-cases, inl, inr, All,
}
use unikernal_honeynet.Baseline.{
  suspicious_markers, haystack_of, tags_in, is_empty, detect_suspicious, Environ, Request, add_tag,
  is_panel, is_known, with_path_tags, chunks_of, build_event,
}
use unikernal_honeynet.Baseline.Distinct.{
  AreDistinct, elem-append, AreDistinct-append, add_tag-AreDistinct, elem-add_tag, if-AreDistinct,
  elem-if, elem-tagged, elem-untagged,
}

-- What a tag that is added, or not, does to the list.
add_if : Bool → String → List String → List String
add_if b tag tags = if b && not (elem tag tags) then tags ++ tag ∷ [] else tags

add_if-AreDistinct :
    (b : Bool) (tag : String) (tags : List String)
    → AreDistinct tags
    → AreDistinct (add_if b tag tags)
unfolding add_if
add_if-AreDistinct b tag tags d = elim (Bool-cases (b && not (elem tag tags))) [
  | inl e ↦ rw e (AreDistinct-append tags tag d (ground (arith, e)))
  | inr e ↦ rw e d
]

elem-add_if :
    (t tag : String) (b : Bool) (tags : List String)
    → elem t (add_if b tag tags) ≡ (elem t tags || (b && str_eq tag t))
unfolding add_if
elem-add_if t tag b tags = ground (arith, elem-append t tags (tag ∷ []), eq_iff tag t)

-- The marker of a tag is in the text.
abbrev pub marked_as : String → String → List (String × String) → Bool
marked_as t haystack = any λ (m : String × String). contains m.0 haystack && str_eq m.1 t

tags_in-AreDistinct :
    (haystack : String) (markers : List (String × String)) (tags : List String)
    → AreDistinct tags
    → AreDistinct (tags_in haystack markers tags)
unfolding tags_in
tags_in-AreDistinct haystack [] tags d = d
tags_in-AreDistinct haystack ((marker, tag) ∷ rest) tags d =
    tags_in-AreDistinct haystack rest _
      (unfold add_if in add_if-AreDistinct (contains marker haystack) tag tags d)

elem-tags_in :
    (t haystack : String) (markers : List (String × String)) (tags : List String)
    → elem t (tags_in haystack markers tags) ≡ (elem t tags || marked_as t haystack markers)
unfolding tags_in
elem-tags_in t haystack [] tags = ground arith
elem-tags_in t haystack ((marker, tag) ∷ rest) tags =
    elem-tags_in t haystack rest _
    ∙ (unfold add_if in ground (arith, elem-add_if t tag (contains marker haystack) tags))

-- The tags that a request's method and path give.
abbrev pub path_tag : String → String → String → Bool
path_tag t method path =
    (str_eq path "/login"
      && (str_eq method "POST" && (str_eq "login_attempt" t || str_eq "credential_guess" t)))
    || ((is_panel path && str_eq "panel_probe" t)
        || (not (is_known path) && str_eq "unknown_path" t))

or_assoc : (e x y z : Bool) → (((e || x) || y) || z) ≡ (e || (x || (y || z)))
or_assoc true x y z = ground arith
or_assoc false x y z = ground arith

module _ (method path : String) (tags : List String) where
  login_tags : List String
  login_tags =
      if str_eq path "/login" && str_eq method "POST"
      then add_tag "credential_guess" (add_tag "login_attempt" tags)
      else tags

  panel_tags : List String
  panel_tags = if is_panel path then add_tag "panel_probe" login_tags else login_tags

  with_path_tags-AreDistinct : AreDistinct tags → AreDistinct (with_path_tags method path tags)
  unfolding with_path_tags
  with_path_tags-AreDistinct d =
      let login : AreDistinct login_tags =
        unfold login_tags in
        if-AreDistinct _ _ _
          (add_tag-AreDistinct "credential_guess" _ (add_tag-AreDistinct "login_attempt" tags d))
          d in
      let panel : AreDistinct panel_tags =
        unfold panel_tags in
        if-AreDistinct _ _ _ (add_tag-AreDistinct "panel_probe" login_tags login) login in
      unfold login_tags panel_tags in
      if-AreDistinct _ _ _ panel (add_tag-AreDistinct "unknown_path" panel_tags panel)

  elem-with_path_tags :
      (t : String)
      → elem t (with_path_tags method path tags) ≡ (elem t tags || path_tag t method path)
  unfolding with_path_tags
  elem-with_path_tags t =
      let attempt =
        str_eq path "/login"
        && (str_eq method "POST" && (str_eq "login_attempt" t || str_eq "credential_guess" t)) in
      let panel = is_panel path && str_eq "panel_probe" t in
      let unknown = not (is_known path) && str_eq "unknown_path" t in
      let login : elem t login_tags ≡ (elem t tags || attempt) =
        unfold login_tags in
        elem-if t (str_eq path "/login" && str_eq method "POST")
          (add_tag "credential_guess" (add_tag "login_attempt" tags)) tags
        ∙ ground (
          arith,
          elem-add_tag t "credential_guess" (add_tag "login_attempt" tags),
          elem-add_tag t "login_attempt" tags,
        ) in
      let panels : elem t panel_tags ≡ (elem t login_tags || panel) =
        unfold panel_tags in elem-tagged t "panel_probe" (is_panel path) login_tags in
      let all : elem t (with_path_tags method path tags) ≡ (elem t panel_tags || unknown) =
        unfold login_tags panel_tags in elem-untagged t "unknown_path" (is_known path) panel_tags in
      all
      ∙ ap (λ b. b || unknown) (panels ∙ ap (λ b. b || panel) login)
      ∙ or_assoc (elem t tags) attempt panel unknown

-- Tags were found exactly if a marker is in the text.
found_any :
    (haystack : String) (markers : List (String × String)) (tags : List String)
    → not (is_empty (tags_in haystack markers tags))
      ≡ (not (is_empty tags) || any (λ (m : String × String). contains m.0 haystack) markers)
unfolding tags_in
found_any haystack [] tags = ground arith
found_any haystack ((marker, tag) ∷ rest) [] = found_any haystack rest _ ∙ ground arith
found_any haystack ((marker, tag) ∷ rest) (x ∷ tags) = found_any haystack rest _ ∙ ground arith

unmarked :
    (t haystack : String) (markers : List (String × String))
    → All (λ (m : String × String). str_eq m.1 t ≡ false) markers
    → marked_as t haystack markers ≡ false
unmarked t haystack [] h = refl
unmarked t haystack (m ∷ rest) h = ground (arith, h.0, unmarked t haystack rest h.1)

unknown_tag : (method path : String) → path_tag "unknown_path" method path ≡ not (is_known path)
unknown_tag method path =
    shrink (str_eq path "/login") (str_eq method "POST") (is_panel path) (is_known path)
  where
    shrink : (a b c k : Bool) → ((a && (b && false)) || ((c && false) || (not k && true))) ≡ not k
    shrink a b c k = ground arith

-- A report has each tag once, and has a tag exactly if a marker of the tag is in the request, or the
-- tag is one of the path: a login attempt's two by POST to /login, panel_probe, or unknown_path. It
-- is suspicious exactly if some marker is in the request or the path is unknown.
pub build_event_tags :
    (environ : Environ) (utc_now : String) (request : Request)
    (method path username password : String)
    → let report = build_event environ utc_now request method path username password in
      let haystack = haystack_of (chunks_of request path username password) in
      AreDistinct report.tags
      × ((t : String)
          → elem t report.tags
            ≡ (marked_as t haystack suspicious_markers || path_tag t method path))
      × (report.suspicious ≡ (
          any (λ (m : String × String). contains m.0 haystack) suspicious_markers
          || not (is_known path)))
unfolding build_event detect_suspicious
build_event_tags environ utc_now request method path username password =
    let haystack = haystack_of (chunks_of request path username password) in
    let detected = tags_in haystack suspicious_markers [] in
    (
      with_path_tags-AreDistinct method path detected
          (tags_in-AreDistinct haystack suspicious_markers [] tt),
      λ t.
          elem-with_path_tags method path detected t
          ∙ ap (λ b. b || path_tag t method path) (elem-tags_in t haystack suspicious_markers []),
      (λ i.
          found_any haystack suspicious_markers [] i
          || (elem-with_path_tags method path detected "unknown_path"
                ∙ ap (λ b. b || path_tag "unknown_path" method path)
                    (elem-tags_in "unknown_path" haystack suspicious_markers []
                      ∙ unmarked "unknown_path" haystack suspicious_markers
                          (refl, (refl, (refl, (refl, (refl, (refl, (refl, (refl, tt)))))))))
                ∙ unknown_tag method path)
              i),
    )
