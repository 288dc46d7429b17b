-- ===== src/Libraries/Volumes.antt =====
-- internal/server/metadata_volume.go: a volume that a title or a file name states. The regular
-- expressions of the file, and strconv.ParseFloat, are the fields of `VolumeSyntax`.
use quire_server.Base.{
  ℕ, ◌-◌, ◌*◌, ◌≡◌, refl, subst, Bool, true, false, not, ◌&&◌, ◌||◌, Option, none, some, [], ◌∷◌,
  map, take, drop, length, Text, codes, contains, ◌==◌, text_eq, nat_eq, if◌then◌else◌, trim_space,
  ltb, arith, Bool-cases, Option-cases, inl, inr,
}
use quire_server.Base.Floats.{Float, above}
use quire_server.MetadataCache.{BookMetadata}

-- `explicit_volume` gives the three groups of its first match; `lower` is strings.ToLower.
pub record VolumeSyntax : Type 0 where
  pub explicit_volume : Text → Option (Text × Text × Text)
  pub volume_suffix : Text → Bool
  pub volume_marker : Text → Bool
  pub parse_float : Text → Option Float
  pub lower : Text → Text

abbrev spaced : ℕ → ℕ
spaced c = if c == b'_' then b' ' else c

abbrev last_of : ℕ → Text → Text
last_of n s = drop (length s - n) s

-- The value without a final .epub, in letters of either case.
unfoldable pub stripped : VolumeSyntax → Text → Text
stripped y raw =
    let value = trim_space (map spaced raw) in
    if last_of 5 (y.lower value) == codes ".epub"
    then trim_space (take (length value - 5) value)
    else trim_space value

-- strings.Trim(…, " \t\r\n,-–—:")
abbrev is_edge : ℕ → Bool
is_edge c = contains c (32 ∷ 9 ∷ 13 ∷ 10 ∷ 44 ∷ 45 ∷ 8211 ∷ 8212 ∷ 58 ∷ [])

abbrev trim_left_edge : Text → Text
trim_left_edge [] = []
trim_left_edge (c ∷ s) = if is_edge c then trim_left_edge s else c ∷ s

abbrev trim_right_edge : Text → Text
trim_right_edge [] = []
trim_right_edge (c ∷ s) =
    let rest = trim_right_edge s in if is_edge c && rest == [] then [] else c ∷ rest

-- volume > 0 && volume < 1e6
abbrev pub volume_in_range : Float → Bool
volume_in_range f = above f 0 1 && ltb f.num (1000000 * f.den)

abbrev sized_volume : Text → Option Float → Option (Text × Float)
sized_volume series none = none
sized_volume series (some f) =
    if series == [] || not (volume_in_range f) then none else some (series, f)

abbrev matched_volume : VolumeSyntax → Option (Text × Text × Text) → Option (Text × Float)
matched_volume y none = none
matched_volume y (some (before, digits, after)) =
    if y.volume_marker before
      || y.volume_marker after
      || not (after == []) && not (y.volume_suffix after)
    then none
    else sized_volume (trim_right_edge (trim_left_edge before)) (y.parse_float digits)

-- The series and the volume that a value states.
unfoldable pub stated_volume : VolumeSyntax → Text → Option (Text × Float)
stated_volume y raw = matched_volume y (y.explicit_volume (stripped y raw))

abbrev pub filled : Option (Text × Float) → BookMetadata → BookMetadata
filled none m = m
filled (some (series, f)) m = record m {
  series = if m.series == [] then series else m.series;
  volume = elim m.volume [ none ↦ some f | some v ↦ some v ];
}

abbrev pub either {ℓ} : {A : Type ℓ} → Option A → Option A → Option A
either none o = o
either (some a) o = some a

-- `inferMetadataVolume`: the title counts before the file name.
unfoldable pub infer_metadata_volume : VolumeSyntax → BookMetadata → Text → BookMetadata
infer_metadata_volume y m filename =
    filled (either (stated_volume y m.title) (stated_volume y filename)) m

sized_volume-range :
    (name series : Text) (o : Option Float) (f : Float)
    → sized_volume name o ≡ some (series, f)
    → volume_in_range f ≡ true
sized_volume-range name series none f e = cc
sized_volume-range name series (some g) f e =
    elim (Bool-cases (name == [] || not (volume_in_range g))) [
      | inl out ↦ cc (simp out at e)
      | inr within ↦
          let same : some (name, g) ≡ some (series, f) = simp within at e in
          let at : g ≡ f = cc in subst (λ x. volume_in_range x ≡ true) at (ground (arith, within))
    ]

matched_volume-range :
    (y : VolumeSyntax) (o : Option (Text × Text × Text)) (series : Text) (f : Float)
    → matched_volume y o ≡ some (series, f)
    → volume_in_range f ≡ true
matched_volume-range y none series f e = cc
matched_volume-range y (some (before, digits, after)) series f e =
    let bad : Bool =
      y.volume_marker before
      || y.volume_marker after
      || not (after == []) && not (y.volume_suffix after) in
    elim (Bool-cases bad) [
      | inl out ↦ cc (simp out at e)
      | inr fine ↦
          sized_volume-range (trim_right_edge (trim_left_edge before)) series (y.parse_float digits)
            f (simp fine at e)
    ]

stated_volume-range :
    (y : VolumeSyntax) (raw series : Text) (f : Float)
    → stated_volume y raw ≡ some (series, f)
    → volume_in_range f ≡ true
unfolding stated_volume
stated_volume-range y raw series f e =
    matched_volume-range y (y.explicit_volume (stripped y raw)) series f e

either-range :
    (y : VolumeSyntax) (a b series : Text) (f : Float)
    → either (stated_volume y a) (stated_volume y b) ≡ some (series, f)
    → volume_in_range f ≡ true
either-range y a b series f e = elim (Option-cases (stated_volume y a)) [
  | inl missing ↦ stated_volume-range y b series f (simp missing at e)
  | inr (p, found) ↦ stated_volume-range y a series f (cc (simp found at e))
]

-- Inferring a volume changes at most an empty series and a missing volume: what the publisher states
-- stays. A volume that is filled in lies above 0 and below a million.
pub infer_metadata_volume_lem :
    (y : VolumeSyntax) (m : BookMetadata) (filename : Text)
    → let n = infer_metadata_volume y m filename in
      (record n { series = m.series; volume = m.volume } ≡ m)
      × ((m.series == []) ≡ false → n.series ≡ m.series)
      × ((f : Float) → m.volume ≡ some f → n.volume ≡ some f)
      × ((f : Float) → m.volume ≡ none → n.volume ≡ some f → volume_in_range f ≡ true)
unfolding infer_metadata_volume
infer_metadata_volume_lem y m filename =
    elim (Option-cases (either (stated_volume y m.title) (stated_volume y filename))) [
      | inl nothing ↦ (
        simp nothing refl,
        λ h. simp nothing refl,
        λ f h. simp nothing h,
        λ f h k. cc (simp nothing at k),
      )
      | inr ((series, g), found) ↦ (
        simp found refl,
        λ h. simp (found, h) refl,
        λ f h. simp (found, h) refl,
        λ f h k.
            let same : some g ≡ some f = simp (found, h) at k in
            let at : g ≡ f = cc in
            subst (λ x. volume_in_range x ≡ true) at
              (either-range y m.title filename series g found),
      )
    ]
