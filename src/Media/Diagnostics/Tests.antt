-- ===== src/Media/Diagnostics/Tests.antt =====
-- The labels of some errors.
use plank.Common.{◌≡◌, refl, some}
use plank.Media.Diagnostics.{failure_class, lane_label}
use plank.Media.Diagnostics.Labels.{IsOneOf, labels, failure_class-IsOneOf}

closed :
    failure_class (some "native video sender failed: closed by 203.0.113.9") ≡ "video-sender-failed"
unfolding failure_class lane_label
closed = refl

failure_class-IsOneOf_example : IsOneOf (failure_class (some "closed by 203.0.113.9: bye")) labels
failure_class-IsOneOf_example = failure_class-IsOneOf (some "closed by 203.0.113.9: bye")
