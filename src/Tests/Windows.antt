-- ===== src/Tests/Windows.antt =====
-- Runs of src/winfs on short names and listings.
use hf_mount.Base.{
  ℕ, ◌<◌, ◌≡◌, ◌↔◌, refl, true, false, none, some, List, [], ◌∷◌, arith, Text, codes, length,
  text_eq,
}
use hf_mount.Base.Equality
use hf_mount.Errors.{hub_status, to_errno, is_transient}
use hf_mount.Flush.Deletes
use hf_mount.Winfs.Names
use hf_mount.Winfs.Names.{split_path, components, unique_case_insensitive_match}
use hf_mount.Winfs.Names.Paths.{AreInside, split_path-AreInside}
use hf_mount.Winfs.Names.Joined.{volume_path, split_path-volume_path}
use hf_mount.Winfs.Names.Matches.{IsUnique, unique_case_insensitive_match-IsUnique}
use hf_mount.Winfs.Times.{to_filetime, from_filetime, to_filetime-from_filetime}
use hf_mount.Winfs.Statuses.{
  nt_success, errno_to_ntstatus, of_error, status_network_busy, errno_to_ntstatus-to_errno,
}
use hf_mount.Winfs.Listing
use hf_mount.Winfs.Listing.{new, get}
use hf_mount.Winfs.Listing.Named.{get-new}
use hf_mount.Winfs.Listing.Search.{find_name}
use hf_mount.Winfs.Listing.Paged.{enumerate, enumerate_lem}

a_b : split_path (codes "\\a\\b") ≡ components (codes "a" ∷ codes "b" ∷ [])
unfolding split_path Names.check_components Names.split_on Names.without_last Names.find
    Names.is_stream_char Equality.text_beq
a_b = refl

album : Names.is_shell_probe_name (codes "AlbumArt_1.JPG") ≡ true
unfolding Names.is_shell_probe_name Names.to_ascii_lowercase Equality.text_beq Deletes.starts_with
album = refl

split_path-AreInside_example : AreInside (codes "a" ∷ codes "b" ∷ [])
split_path-AreInside_example =
    split_path-AreInside (codes "\\a\\b") (codes "a" ∷ codes "b" ∷ []) a_b

split_path-volume_path_example :
    split_path (volume_path (codes "a" ∷ codes "b" ∷ [])) ≡ components (codes "a" ∷ codes "b" ∷ [])
unfolding Names.windows_name_problem Names.find Names.is_invalid_char Names.ends_with
    Names.is_reserved_device_name Names.utf16_count Names.to_ascii_uppercase Equality.text_beq
split_path-volume_path_example =
    split_path-volume_path (codes "a" ∷ codes "b" ∷ []) (refl, (refl, tt))

-- Every letter is its own upper case.
unique_case_insensitive_match-IsUnique_example :
    (unique_case_insensitive_match (λ c. c) (codes "b") (codes "a" ∷ codes "b" ∷ [])
      ≡ some (codes "b"))
    ↔ IsUnique (λ c. c) (codes "b") (codes "b") (codes "a" ∷ codes "b" ∷ [])
unique_case_insensitive_match-IsUnique_example =
    unique_case_insensitive_match-IsUnique (λ c. c) (codes "b") (codes "b")
      (codes "a" ∷ codes "b" ∷ [])

to_filetime-from_filetime_example :
    to_filetime (from_filetime 133444736000000000) ≡ 133444736000000000
to_filetime-from_filetime_example = to_filetime-from_filetime 133444736000000000 (omega arith)

errno_to_ntstatus-to_errno_example :
    (nt_success (errno_to_ntstatus (of_error (to_errno (hub_status 503)))) ≡ false)
    × ((errno_to_ntstatus (of_error (to_errno (hub_status 503))) ≡ status_network_busy)
        ↔ (is_transient (hub_status 503) ≡ true))
errno_to_ntstatus-to_errno_example = errno_to_ntstatus-to_errno (hub_status 503)

abbrev listing : List (Text × ℕ)
listing = (codes "b", 1) ∷ (codes ".", 2) ∷ (codes "a", 3) ∷ (codes "b", 4) ∷ []

get-new_example : get (new listing) (codes "b") ≡ some 1
unfolding find_name Equality.text_beq
get-new_example = get-new (codes "b") listing

two_left : length (new listing).entries < 3
unfolding new Listing.without_dots Listing.sort_by_name Listing.insert_sorted Listing.text_leb
    Listing.dedup_after Equality.text_beq
two_left = omega arith

enumerate_lem_example : enumerate 3 0 (new listing) none true ≡ (new listing).entries
enumerate_lem_example = enumerate_lem 3 0 listing true two_left
