-- ===== src/SessionWindow.antt =====
-- session.go: `mergeWindow`, which a window-change request of a session goes through.
use ssh_server_go.Prelude.{◌≡◌, arith, if◌then◌else◌}
use ssh_server_go.Prelude.Int.{is_zero, ℤ}
use ssh_server_go.Codec.{Window}

-- An update of zero leaves the value.
abbrev pub updated : ℤ → ℤ → ℤ
updated current update = if is_zero update then current else update

unfoldable pub merge_window : Window → Window → Window
merge_window current update = record {
  width = updated current.width update.width;
  height = updated current.height update.height;
  width_pixels = updated current.width_pixels update.width_pixels;
  height_pixels = updated current.height_pixels update.height_pixels;
}

-- Updates that are merged one after another give what the merged update gives, so that which pending
-- updates are merged first does not matter.
pub merge_window_assoc :
    (current first second : Window)
    → merge_window (merge_window current first) second
      ≡ merge_window current (merge_window first second)
unfolding merge_window
merge_window_assoc current first second = ground arith
