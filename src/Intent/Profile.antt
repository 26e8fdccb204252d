-- ===== src/Intent/Profile.antt =====
-- gateway/provider_profiles.py: the rules for each provider, and how one is chosen.
use nuvrail.Prelude.{Bool, true, false, ◌||◌, List, [], ◌∷◌, Option, none, some, any, if◌then◌else◌}
use nuvrail.Prelude.Text.{Text, Unicode, codes, same, lower}
use nuvrail.Prelude.Text.Edit.{ends_with}

pub record ProviderProfile : Type 0 where
  pub name : Text
  pub archive_folder : Option Text
  pub trash_folder : Option Text
  pub junk_folder : Option Text
  pub sent_suppress_folders : List Text
  pub sent_folder : Option Text
  pub move_capable : Bool

abbrev pub gmail_profile : ProviderProfile
gmail_profile = record {
  name = codes "Gmail";
  archive_folder = some (codes "[Gmail]/All Mail");
  trash_folder = some (codes "[Gmail]/Trash");
  junk_folder = some (codes "[Gmail]/Spam");
  sent_suppress_folders = codes "[Gmail]/Sent Mail" ∷ [];
  sent_folder = none;
  move_capable = true;
}

abbrev pub icloud_profile : ProviderProfile
icloud_profile = record {
  name = codes "iCloud Mail";
  archive_folder = some (codes "Archive");
  trash_folder = some (codes "Deleted Messages");
  junk_folder = some (codes "Junk");
  sent_suppress_folders = codes "Sent Messages" ∷ [];
  sent_folder = some (codes "Sent Messages");
  move_capable = true;
}

abbrev pub outlook_profile : ProviderProfile
outlook_profile = record {
  name = codes "Outlook/Microsoft 365";
  archive_folder = none;
  trash_folder = some (codes "Deleted Items");
  junk_folder = some (codes "Junk Email");
  sent_suppress_folders = codes "Sent Items" ∷ codes "Sent" ∷ [];
  sent_folder = none;
  move_capable = true;
}

abbrev pub generic_profile : ProviderProfile
generic_profile = record {
  name = codes "Generic IMAP";
  archive_folder = none;
  trash_folder = none;
  junk_folder = none;
  sent_suppress_folders = [];
  sent_folder = some (codes "Sent");
  move_capable = false;
}

abbrev pub detection_table : List (Text × ProviderProfile)
detection_table =
    (codes "gmail.com", gmail_profile)
    ∷ (codes "googlemail.com", gmail_profile)
    ∷ (codes "mail.me.com", icloud_profile)
    ∷ (codes "mac.com", icloud_profile)
    ∷ (codes "outlook.com", outlook_profile)
    ∷ (codes "outlook.office365.com", outlook_profile)
    ∷ (codes "hotmail.com", outlook_profile)
    ∷ (codes "live.com", outlook_profile)
    ∷ []

-- The host is the suffix, or ends in a dot and the suffix.
abbrev pub has_domain : Text → Text → Bool
has_domain host suffix = same host suffix || ends_with host (b'.' ∷ suffix)

unfoldable pub detect_in : Text → List (Text × ProviderProfile) → ProviderProfile
unfolding same ends_with
detect_in host [] = generic_profile
detect_in host ((suffix, profile) ∷ rest) =
    if has_domain host suffix then profile else detect_in host rest

unfoldable pub detect_provider : Unicode → Text → ProviderProfile
unfolding detect_in lower
detect_provider uni upstream_host = detect_in (lower uni upstream_host) detection_table

pub record PendingCopyIntent : Type 0 where
  pub tag : Text
  pub uid_set : Text
  pub destination : Text

unfoldable pub should_suppress_append : Unicode → Text → ProviderProfile → Bool
unfolding same lower
should_suppress_append uni folder profile =
    any (λ f. same (lower uni f) (lower uni folder)) profile.sent_suppress_folders

unfoldable pub first_special : Unicode → Text → List (Option Text) → Option Text
unfolding same lower
first_special uni dest [] = none
first_special uni dest (none ∷ rest) = first_special uni dest rest
first_special uni dest (some [] ∷ rest) = first_special uni dest rest
first_special uni dest (some (c ∷ s) ∷ rest) =
    if same dest (lower uni (c ∷ s)) then some (c ∷ s) else first_special uni dest rest

unfoldable pub copy_archive_intent : Unicode → Text → ProviderProfile → Option Text
unfolding first_special lower
copy_archive_intent uni destination p =
    first_special uni (lower uni destination)
      (p.archive_folder ∷ p.trash_folder ∷ p.junk_folder ∷ [])
